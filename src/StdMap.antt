-- ===== src/StdMap.antt =====
-- `std::map` as the code uses it (db/table.h, db/sstable_index.h): entries sorted by key, without
-- duplicates. The order of the keys is an interface, which `Key` implements.
pub mod Order
pub mod Find
use project_db.Common.{
  ◌≡◌, ◌↔◌, Bool, true, false, Option, none, some, List, [], ◌∷◌, if◌then◌else◌,
}

-- What the code relies on of `operator<` and `operator==` of a key type.
pub record Ord {ℓ} (K : Type ℓ) : Type ℓ where
  pub less : K → K → Bool
  pub beq : K → K → Bool
  pub beq_iff : (a b : K) → (beq a b ≡ true) ↔ (a ≡ b)
  pub less_irrefl : (a : K) → less a a ≡ false
  pub less_trans : (a b c : K) → less a b ≡ true → less b c ≡ true → less a c ≡ true
  pub less_total : (a b : K) → less a b ≡ false → less b a ≡ false → a ≡ b

abbrev pub StdMap {ℓ κ} : Type ℓ → Type κ → Type (ℓ ⊔ κ)
StdMap K V = List (K × V)

module _ {ℓ κ} {K : Type ℓ} {V : Type κ} ⦃o : Ord K⦄ where
  -- m.find(k), with `none` for `end()`
  unfoldable pub find : K → StdMap K V → Option V
  find k [] = none
  find k ((j, v) ∷ m) = if o.beq j k then some v else find k m

  -- m[k] = v
  unfoldable pub insert_or_assign : K → V → StdMap K V → StdMap K V
  insert_or_assign k v [] = (k, v) ∷ []
  insert_or_assign k v ((j, w) ∷ m) =
      if o.less k j
      then (k, v) ∷ (j, w) ∷ m
      else if o.less j k
      then (j, w) ∷ insert_or_assign k v m
      else (j, v) ∷ m

  -- m.emplace(k, v) and m.insert(m.end(), {k, v}): an entry that is there already stays
  unfoldable pub emplace : K → V → StdMap K V → StdMap K V
  emplace k v [] = (k, v) ∷ []
  emplace k v ((j, w) ∷ m) =
      if o.less k j
      then (k, v) ∷ (j, w) ∷ m
      else if o.less j k
      then (j, w) ∷ emplace k v m
      else (j, w) ∷ m

  -- every key of `m` comes after `k`
  abbrev pub Above : K → StdMap K V → Type 0
  Above k [] = Unit {0}
  Above k ((j, v) ∷ m) = (o.less k j ≡ true) × Above k m

  abbrev pub IsSorted : StdMap K V → Type 0
  IsSorted [] = Unit {0}
  IsSorted ((k, v) ∷ m) = Above k m × IsSorted m
