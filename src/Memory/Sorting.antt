-- ===== src/Memory/Sorting.antt =====
-- sort.SliceStable, as the insertion of each item before the first that is not less: the result of
-- a stable sort, whatever its method.
use fsm_go.Prelude.{
  ◌≡◌, refl, Bool, true, false, List, [], ◌∷◌, Permᴰ, arith, if◌then◌else◌, Bool-cases, inl, inr,
  All, All-imp, keep,
}
use mathlib.Core.List

module _ {A : Type 0} (less : A → A → Bool) where
  insert_stable : A → List A → List A
  insert_stable x [] = x ∷ []
  insert_stable x (y ∷ ys) = if less y x then y ∷ insert_stable x ys else x ∷ y ∷ ys

  unfoldable pub sort_stable : List A → List A
  unfolding insert_stable
  sort_stable [] = []
  sort_stable (x ∷ xs) = insert_stable x (sort_stable xs)

  insert_stable-perm : (x : A) (ys : List A) → Permᴰ (insert_stable x ys) (x ∷ ys)
  unfolding insert_stable
  insert_stable-perm x [] = List.Permᴰ.refl (x ∷ [])
  insert_stable-perm x (y ∷ ys) = elim (Bool-cases (less y x)) [
    | inl e ↦ rw e (Permᴰ.trans (Permᴰ.cons refl (insert_stable-perm x ys)) (Permᴰ.swap refl refl))
    | inr e ↦ rw e (List.Permᴰ.refl (x ∷ y ∷ ys))
  ]

  pub sort_stable-perm : (xs : List A) → Permᴰ (sort_stable xs) xs
  unfolding sort_stable
  sort_stable-perm [] = Permᴰ.nil
  sort_stable-perm (x ∷ xs) =
      Permᴰ.trans (insert_stable-perm x (sort_stable xs)) (Permᴰ.cons refl (sort_stable-perm xs))

  -- no item is less than one that stands before it
  abbrev pub IsSorted : List A → Type 0
  IsSorted [] = Unit {0}
  IsSorted (x ∷ xs) = All (λ y. less y x ≡ false) xs × IsSorted xs

  -- a strict order, of which "not less" is transitive
  pub record IsWeakOrder : Type 0 where
    pub asym : (x y : A) → less x y ≡ true → less y x ≡ false
    pub trans : (x y z : A) → less y x ≡ false → less z y ≡ false → less z x ≡ false

  module _ (o : IsWeakOrder) where
    All-insert_stable :
        (P : A → Type 0) (x : A) (ys : List A) → P x → All P ys → All P (insert_stable x ys)
    unfolding insert_stable
    All-insert_stable P x [] h k = (h, tt)
    All-insert_stable P x (y ∷ ys) h k = elim (Bool-cases (less y x)) [
      | inl e ↦ rw e (k.0, All-insert_stable P x ys h k.1)
      | inr e ↦ rw e (h, k)
    ]

    insert_stable-IsSorted : (x : A) (ys : List A) → IsSorted ys → IsSorted (insert_stable x ys)
    unfolding insert_stable
    insert_stable-IsSorted x [] h = (tt, tt)
    insert_stable-IsSorted x (y ∷ ys) h = elim (Bool-cases (less y x)) [
      | inl e ↦ rw e (
        All-insert_stable (λ z. less z y ≡ false) x ys (o.asym y x e) h.0,
        insert_stable-IsSorted x ys h.1,
      )
      | inr e ↦ rw e ((e, All-imp _ _ (λ z n. o.trans x y z e n) ys h.0), h)
    ]

    pub sort_stable-IsSorted : (xs : List A) → IsSorted (sort_stable xs)
    unfolding sort_stable
    sort_stable-IsSorted [] = tt
    sort_stable-IsSorted (x ∷ xs) =
        insert_stable-IsSorted x (sort_stable xs) (sort_stable-IsSorted xs)

  -- Items of which none is less than another keep their order.
  module _ (p : A → Bool) (level : (x y : A) → p x ≡ true → p y ≡ true → less y x ≡ false) where
    keep-insert_stable : (x : A) (ys : List A) → keep p (insert_stable x ys) ≡ keep p (x ∷ ys)
    unfolding insert_stable
    keep-insert_stable x [] = refl
    keep-insert_stable x (y ∷ ys) = ground (arith, keep-insert_stable x ys, level x y)

    pub keep-sort_stable : (xs : List A) → keep p (sort_stable xs) ≡ keep p xs
    unfolding sort_stable
    keep-sort_stable [] = refl
    keep-sort_stable (x ∷ xs) =
        ground (arith, keep-sort_stable xs, keep-insert_stable x (sort_stable xs))
