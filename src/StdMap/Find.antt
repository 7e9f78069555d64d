-- ===== src/StdMap/Find.antt =====
-- What `find` sees after an update.
use project_db.Common.{◌≡◌, refl, true, none, some, [], ◌∷◌, arith, if◌then◌else◌, ◌++◌}
use project_db.StdMap.{Ord, StdMap, find, insert_or_assign, Above}
use project_db.StdMap.Order.{Below}

pub beq_refl {ℓ} : {K : Type ℓ} ⦃o : Ord K⦄ (k : K) → o.beq k k ≡ true
beq_refl ⦃o⦄ k = (o.beq_iff k k).1 refl

module _ {ℓ κ} {K : Type ℓ} {V : Type κ} ⦃o : Ord K⦄ where
  pub find-insert_or_assign :
      (k j : K) (v : V) (m : StdMap K V)
      → find j (insert_or_assign k v m) ≡ (if o.beq k j then some v else find j m)
  unfolding find insert_or_assign
  find-insert_or_assign k j v [] = refl
  find-insert_or_assign k j v ((i, w) ∷ m) = ground (
    arith,
    find-insert_or_assign k j v m,
    o.beq_iff k j,
    o.beq_iff i j,
    o.less_total k i,
    o.less_irrefl i,
  )

  -- A key before all entries is not there.
  pub find-Above : (k : K) (m : StdMap K V) → Above k m → find k m ≡ none
  unfolding find
  find-Above k [] a = refl
  find-Above k ((j, v) ∷ m) a = ground (arith, find-Above k m, o.beq_iff j k, o.less_irrefl k)

module _ {ℓ κ} {K : Type ℓ} {V : Type κ} ⦃o : Ord K⦄ where
  -- A key after all entries is not there.
  pub find-Below : (k : K) (m : StdMap K V) → Below k m → find k m ≡ none
  unfolding find
  find-Below k [] b = refl
  find-Below k ((j, v) ∷ m) b = ground (arith, find-Below k m, o.beq_iff j k, o.less_irrefl k)

  pub find-append_none : (k : K) (m n : StdMap K V) → find k m ≡ none → find k (m ++ n) ≡ find k n
  unfolding find
  find-append_none k [] n h = refl
  find-append_none k ((j, v) ∷ m) n h = ground (arith, find-append_none k m n)

  pub find-append_Above : (k : K) (m n : StdMap K V) → Above k n → find k (m ++ n) ≡ find k m
  unfolding find
  find-append_Above k [] n h = find-Above k n h
  find-append_Above k ((j, v) ∷ m) n h = ground (arith, find-append_Above k m n h)

  pub find_head : (k : K) (v : V) (m : StdMap K V) → find k ((k, v) ∷ m) ≡ some v
  unfolding find
  find_head k v m = rw (beq_refl k)
