-- ===== src/Dict.antt =====
-- Go's `map[string]V` as an association list with one entry for each key. A loop over a map goes
-- through its entries in an order that Go leaves open: such loops take the order as an argument.
pub mod Laws
use fsm_go.Prelude.{String, Bool, Option, none, some, List, [], ◌∷◌, ◌==◌, is_some, if◌then◌else◌}

abbrev pub Dict {ℓ} : Type ℓ → Type ℓ
Dict V = List (String × V)

module _ {ℓ} {V : Type ℓ} where
  -- v, ok := m[k]
  unfoldable pub lookup : String → Dict V → Option V
  lookup key [] = none
  lookup key ((name, value) ∷ rest) = if name == key then some value else lookup key rest

  -- m[k] = v
  unfoldable pub insert : String → V → Dict V → Dict V
  insert key new [] = (key, new) ∷ []
  insert key new ((name, value) ∷ rest) =
      if name == key then (key, new) ∷ rest else (name, value) ∷ insert key new rest

  -- m[k] where the zero value stands in for a missing key
  abbrev pub lookup_or : V → String → Dict V → V
  lookup_or zero_value k m = elim (lookup k m) [ none ↦ zero_value | some v ↦ v ]

  abbrev pub has : String → Dict V → Bool
  has k m = is_some (lookup k m)

  -- the entries' values, in their order
  abbrev pub values : Dict V → List V
  values [] = []
  values ((_, v) ∷ m) = v ∷ values m

  abbrev pub keys : Dict V → List String
  keys [] = []
  keys ((k, _) ∷ m) = k ∷ keys m

-- One write for each item, in order: `for _, x := range xs { m[key(x)] = x }`.
abbrev pub insert_all {ℓ} : {V : Type ℓ} → (V → String) → List V → Dict V → Dict V
insert_all key [] m = m
insert_all key (x ∷ xs) m = insert_all key xs (insert (key x) x m)
