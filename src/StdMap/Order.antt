-- ===== src/StdMap/Order.antt =====
-- The operations of `StdMap` keep its entries sorted.
use project_db.Common.{◌≡◌, refl, true, [], ◌∷◌, ◌++◌, arith, false}
use project_db.StdMap.{Ord, StdMap, insert_or_assign, emplace, Above, IsSorted}

-- Of two keys that differ one comes first.
pub less_flip {ℓ} :
    {K : Type ℓ} ⦃o : Ord K⦄ (a b : K) → o.beq a b ≡ false → o.less a b ≡ false → o.less b a ≡ true
less_flip ⦃o⦄ a b ne ge = ground (arith, o.less_total a b, o.beq_iff a b)

module _ {ℓ κ} {K : Type ℓ} {V : Type κ} ⦃o : Ord K⦄ where
  pub Above-trans : (i k : K) (m : StdMap K V) → o.less i k ≡ true → Above k m → Above i m
  Above-trans i k [] h a = tt
  Above-trans i k ((j, v) ∷ m) h a = (o.less_trans i k j h a.0, Above-trans i k m h a.1)

  pub insert_or_assign-Above :
      (i k : K) (v : V) (m : StdMap K V)
      → o.less i k ≡ true
      → Above i m
      → Above i (insert_or_assign k v m)
  unfolding insert_or_assign
  insert_or_assign-Above i k v [] h a = (h, tt)
  insert_or_assign-Above i k v ((j, w) ∷ m) h a = ground (arith, insert_or_assign-Above i k v m)

  pub insert_or_assign-IsSorted :
      (k : K) (v : V) (m : StdMap K V) → IsSorted m → IsSorted (insert_or_assign k v m)
  unfolding insert_or_assign
  insert_or_assign-IsSorted k v [] s = (tt, tt)
  insert_or_assign-IsSorted k v ((j, w) ∷ m) s =
      ground
        (arith, insert_or_assign-IsSorted k v m, insert_or_assign-Above j k v m, Above-trans k j m)

  -- every key of `m` comes before `k`
  abbrev pub Below : K → StdMap K V → Type 0
  Below k [] = Unit {0}
  Below k ((j, v) ∷ m) = (o.less j k ≡ true) × Below k m

  pub Below-trans : (k i : K) (m : StdMap K V) → o.less k i ≡ true → Below k m → Below i m
  Below-trans k i [] h b = tt
  Below-trans k i ((j, v) ∷ m) h b = (o.less_trans j k i b.0 h, Below-trans k i m h b.1)

  pub Below-append : (k : K) (m n : StdMap K V) → Below k m → Below k n → Below k (m ++ n)
  Below-append k [] n b c = c
  Below-append k ((j, v) ∷ m) n b c = (b.0, Below-append k m n b.1 c)

  -- An entry whose key comes after all others goes to the end.
  pub emplace_last : (k : K) (v : V) (m : StdMap K V) → Below k m → emplace k v m ≡ m ++ (k, v) ∷ []
  unfolding emplace
  emplace_last k v [] b = refl
  emplace_last k v ((j, w) ∷ m) b =
      ground (arith, emplace_last k v m, o.less_trans k j k, o.less_irrefl k)

  -- every key of `m` comes before every key of `n`
  abbrev pub AllBelow : StdMap K V → StdMap K V → Type 0
  AllBelow m [] = Unit {0}
  AllBelow m ((k, v) ∷ n) = Below k m × AllBelow m n

  pub AllBelow-nil : (n : StdMap K V) → AllBelow [] n
  AllBelow-nil [] = tt
  AllBelow-nil ((k, v) ∷ n) = (tt, AllBelow-nil n)

  -- Moving the head of a sorted tail to the end of what stands before it.
  pub AllBelow-shift :
      (m : StdMap K V) (k : K) (v : V) (n : StdMap K V)
      → AllBelow m n
      → Above k n
      → AllBelow (m ++ (k, v) ∷ []) n
  AllBelow-shift m k v [] a b = tt
  AllBelow-shift m k v ((j, w) ∷ n) a b =
      (Below-append j m ((k, v) ∷ []) a.0 (b.0, tt), AllBelow-shift m k v n a.1 b.1)

module _ {ℓ κ} {K : Type ℓ} {V : Type κ} ⦃o : Ord K⦄ where
  -- The parts of a sorted map are sorted.
  pub Above-append_left : (k : K) (m n : StdMap K V) → Above k (m ++ n) → Above k m
  Above-append_left k [] n a = tt
  Above-append_left k ((j, v) ∷ m) n a = (a.0, Above-append_left k m n a.1)

  pub IsSorted-append_left : (m n : StdMap K V) → IsSorted (m ++ n) → IsSorted m
  IsSorted-append_left [] n s = tt
  IsSorted-append_left ((k, v) ∷ m) n s =
      (Above-append_left k m n s.0, IsSorted-append_left m n s.1)

  pub IsSorted-append_right : (m n : StdMap K V) → IsSorted (m ++ n) → IsSorted n
  IsSorted-append_right [] n s = s
  IsSorted-append_right ((k, v) ∷ m) n s = IsSorted-append_right m n s.1

module _ {ℓ κ} {K : Type ℓ} {V : Type κ} ⦃o : Ord K⦄ where
  pub insert_or_assign_last :
      (k : K) (v : V) (m : StdMap K V) → Below k m → insert_or_assign k v m ≡ m ++ (k, v) ∷ []
  unfolding insert_or_assign
  insert_or_assign_last k v [] b = refl
  insert_or_assign_last k v ((j, w) ∷ m) b =
      ground (arith, insert_or_assign_last k v m, o.less_trans k j k, o.less_irrefl k)
