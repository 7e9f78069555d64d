-- ===== src/Compaction/Layers.antt =====
-- Tables as layers, the oldest first: a key has the value of the newest table that holds it.
use project_db.Common.{
  ◌≡◌, refl, sym, ap, ◌⊎◌, inl, inr, true, Option, none, some, List, [], ◌∷◌, ◌++◌, Bytes,
  Bool-cases,
}
use project_db.Key.{Key, key_ord}
use project_db.SsTable.{Table}
use project_db.SsTable.Merge.{merge_value}
use project_db.StdMap.{find}
use project_db.Value.{Value, is_tombstone_value, underlying_value}

abbrev pub or_older : Option Value → Option Value → Option Value
or_older (some v) older = some v
or_older none older = older

unfoldable pub lookup_layers : Key → List Table → Option Value
lookup_layers k [] = none
lookup_layers k (t ∷ newer) = or_older (lookup_layers k newer) (find k t)

-- What a client sees of a value: a removed key has none.
abbrev pub visible : Option Value → Option Bytes
visible none = none
visible (some v) = underlying_value v

abbrev pub IsRemoved : Option Value → Type 0
IsRemoved none = ⊥
IsRemoved (some v) = is_tombstone_value v ≡ true

-- The merged value is the value, or the value was a tombstone and is gone.
abbrev pub Kept : Option Value → Option Value → Type 0
Kept before after = (before ≡ after) ⊎ (IsRemoved before × (after ≡ none))

-- The value is unchanged unless it was a tombstone.
abbrev pub Unchanged : Option Value → Option Value → Type 0
Unchanged before after = IsRemoved before ⊎ (before ≡ after)

pub Kept-Unchanged : (l g : Option Value) → Kept l g → Unchanged l g
Kept-Unchanged l g (inl e) = inr e
Kept-Unchanged l g (inr (r, e)) = inl r

pub Kept-visible : (l g : Option Value) → Kept l g → visible l ≡ visible g
unfolding underlying_value
Kept-visible l g (inl e) = ap visible e
Kept-visible none g (inr (r, e)) = absurd r
Kept-visible (some v) g (inr (r, e)) = rw (e, r)

pub or_older_assoc : (a b c : Option Value) → or_older (or_older a b) c ≡ or_older a (or_older b c)
or_older_assoc none b c = refl
or_older_assoc (some v) b c = refl

pub or_older-none : (a : Option Value) → or_older a none ≡ a
or_older-none none = refl
or_older-none (some v) = refl

pub lookup_layers-append :
    (k : Key) (xs ys : List Table)
    → lookup_layers k (xs ++ ys) ≡ or_older (lookup_layers k ys) (lookup_layers k xs)
unfolding lookup_layers
lookup_layers-append k [] ys = sym (or_older-none (lookup_layers k ys))
lookup_layers-append k (x ∷ xs) ys =
    rw (lookup_layers-append k xs ys)
      (or_older_assoc (lookup_layers k ys) (lookup_layers k xs) (find k x))

-- One more table of the group, merged into it.
pub Kept-merge : (l g n : Option Value) → Kept l g → Kept (or_older n l) (merge_value g n)
Kept-merge l g none h = h
Kept-merge l none (some v) h = inl refl
Kept-merge l (some w) (some v) h = elim (Bool-cases (is_tombstone_value v)) [
  | inl t ↦ inr (t, rw t)
  | inr f ↦ inl (rw f)
]

pub Unchanged-or_older :
    (l₁ g₁ l₂ g₂ : Option Value)
    → Unchanged l₁ g₁
    → Unchanged l₂ g₂
    → Unchanged (or_older l₂ l₁) (or_older g₂ g₁)
Unchanged-or_older l₁ g₁ none g₂ h (inl r) = absurd r
Unchanged-or_older l₁ g₁ (some v) g₂ h (inl r) = inl r
Unchanged-or_older l₁ g₁ none g₂ h (inr e) = rw (← e) h
Unchanged-or_older l₁ g₁ (some v) g₂ h (inr e) = inr (rw (← e))

-- Newer tables leave a removed key removed, or hide it.
pub Kept-newer : (l g n : Option Value) → Kept l g → Kept (or_older n l) (or_older n g)
Kept-newer l g none h = h
Kept-newer l g (some v) h = inl refl
