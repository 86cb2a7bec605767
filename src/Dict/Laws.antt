-- ===== src/Dict/Laws.antt =====
-- Laws of lookups and writes, and of maps that are filled with new keys.
use fsm_go.Prelude.{
  String, ◌≡◌, refl, ◌≢◌, ◌⊎◌, inl, inr, true, none, some, List, [], ◌∷◌, ◌++◌, arith, ◌==◌, eq_iff,
  eq_refl, is_some, if◌then◌else◌, Bool-cases, All,
}
use fsm_go.Dict.{Dict, lookup, insert, keys}

module _ {ℓ} {V : Type ℓ} where
  pub lookup-insert :
      (key other : String) (new : V) (d : Dict V)
      → lookup other (insert key new d) ≡ (if key == other then some new else lookup other d)
  unfolding lookup insert
  lookup-insert key other new [] = refl
  lookup-insert key other new ((name, value) ∷ rest) =
      let ih = lookup-insert key other new rest in
      ground (arith, eq_iff key other, eq_iff name key, eq_iff name other)

  pub lookup-insert_self : (k : String) (v : V) (m : Dict V) → lookup k (insert k v m) ≡ some v
  lookup-insert_self k v m = simp (lookup-insert, eq_refl)

  pub lookup-insert_ne :
      (k j : String) (v : V) (m : Dict V) → k ≢ j → lookup j (insert k v m) ≡ lookup j m
  lookup-insert_ne k j v m h = rw lookup-insert (ground (arith, eq_iff k j))

  -- a write under a new key adds its entry at the end
  pub insert-new :
      (k : String) (v : V) (m : Dict V) → lookup k m ≡ none → insert k v m ≡ m ++ (k, v) ∷ []
  unfolding lookup insert
  insert-new k v [] h = refl
  insert-new k v ((j, w) ∷ m) h = ground (arith, insert-new k v m)

  pub lookup-append :
      (k : String) (m n : Dict V)
      → lookup k (m ++ n) ≡ elim (lookup k m) [ none ↦ lookup k n | some v ↦ some v ]
  unfolding lookup
  lookup-append k [] n = refl
  lookup-append k ((j, w) ∷ m) n = ground (arith, lookup-append k m n)

-- `k` is none of `ks`
abbrev pub IsNew : String → List String → Type 0
IsNew k ks = All (λ j. j ≢ k) ks

-- No name stands twice.
abbrev pub AreDistinct : List String → Type 0
AreDistinct [] = Unit {0}
AreDistinct (k ∷ ks) = IsNew k ks × AreDistinct ks

-- `k` is one of `ks`
abbrev pub IsOneOf : String → List String → Type 0
IsOneOf k [] = ⊥
IsOneOf k (j ∷ ks) = (j ≡ k) ⊎ IsOneOf k ks

module _ {ℓ} {V : Type ℓ} where
  pub lookup-none→IsNew : (k : String) (m : Dict V) → lookup k m ≡ none → IsNew k (keys m)
  unfolding lookup
  lookup-none→IsNew k [] h = tt
  lookup-none→IsNew k ((j, w) ∷ m) h = elim (Bool-cases (j == k)) [
    | inl e ↦ ground arith
    | inr e ↦ (λ p. ground (arith, eq_iff j k), lookup-none→IsNew k m (ground arith))
  ]

  pub IsNew→lookup-none : (k : String) (m : Dict V) → IsNew k (keys m) → lookup k m ≡ none
  unfolding lookup
  IsNew→lookup-none k [] h = refl
  IsNew→lookup-none k ((j, w) ∷ m) h = ground (arith, eq_iff j k, IsNew→lookup-none k m h.1, h.0)

  pub lookup-some→IsOneOf :
      (k : String) (m : Dict V) → is_some (lookup k m) ≡ true → IsOneOf k (keys m)
  unfolding lookup
  lookup-some→IsOneOf k [] h = ground arith
  lookup-some→IsOneOf k ((j, w) ∷ m) h = elim (Bool-cases (j == k)) [
    | inl e ↦ inl ((eq_iff j k).0 e)
    | inr e ↦ inr (lookup-some→IsOneOf k m (ground arith))
  ]

  pub IsOneOf→lookup-some :
      (k : String) (m : Dict V) → IsOneOf k (keys m) → is_some (lookup k m) ≡ true
  unfolding lookup
  IsOneOf→lookup-some k [] h = elim h [ ]
  IsOneOf→lookup-some k ((j, w) ∷ m) (inl e) = ground (arith, eq_iff j k)
  IsOneOf→lookup-some k ((j, w) ∷ m) (inr h) = ground (arith, IsOneOf→lookup-some k m h)
