-- ===== src/Compiler/Loops.antt =====
-- What the loops of `Compile` establish: `add_all` against the list of prepared items, and a loop of
-- checks against a predicate that holds of each item, whatever the order of the loop.
use fsm_go.Prelude.{
  String, ◌≡◌, refl, sym, ap, ◌∙◌, ◌≢◌, inl, inr, Bool, true, false, none, List, [], ◌∷◌, ◌++◌, map,
  arith, Option-cases, All,
}
use mathlib.Core.List.{append-nil, append_assoc}
use fsm_go.Dict.{Dict, lookup, keys, values}
use fsm_go.Dict.Laws.{IsNew, IsOneOf, AreDistinct, insert-new, lookup-none→IsNew, IsNew→lookup-none}
use fsm_go.Errors.{Error, Result, ok, ◌>>=◌, refuse, Result-cases, ok-injective}
use fsm_go.Compiler.{add_all, check_each}

-- every item prepared, or the first error
abbrev pub prepare_all {ℓ} : {A : Type ℓ} → (A → Result A) → List A → Result (List A)
prepare_all prepare [] = ok []
prepare_all prepare (x ∷ xs) =
    let rest = prepare_all prepare xs in do y ← prepare x; ys ← rest; ok (y ∷ ys)

-- each item under its key
abbrev pub entries {ℓ} : {A : Type ℓ} → (A → String) → List A → Dict A
entries key [] = []
entries key (x ∷ xs) = (key x, x) ∷ entries key xs

-- the keys are new to those seen, and to each other
abbrev AreFresh : List String → List String → Type 0
AreFresh seen [] = Unit {0}
AreFresh seen (k ∷ ks) = IsNew k seen × AreFresh (seen ++ k ∷ []) ks

keys-append {ℓ} : {V : Type ℓ} (m n : Dict V) → keys (m ++ n) ≡ keys m ++ keys n
keys-append [] n = refl
keys-append ((k, v) ∷ m) n = ap (λ ks. k ∷ ks) (keys-append m n)

refuse-ok : (b : Bool) (e : Error) {u : Unit {0}} → refuse b e ≡ ok u → b ≡ false
refuse-ok true e h = cc
refuse-ok false e h = refl

pub prepare_all-cons {ℓ} :
    {A : Type ℓ} (prepare : A → Result A) (x y : A) (xs ys : List A)
    → prepare_all prepare (x ∷ xs) ≡ ok (y ∷ ys)
    → (prepare x ≡ ok y) × (prepare_all prepare xs ≡ ok ys)
prepare_all-cons prepare x y xs ys h = ground arith

module _ {A : Type 0} (prepare : A → Result A) (key : A → String) (duplicate : String → Error) where
  add_all-cons-ok :
      (x : A) (xs : List A) (m m' : Dict A)
      → add_all prepare key duplicate (x ∷ xs) m ≡ ok m'
      → (y : A) × (prepare x ≡ ok y)
        × (lookup (key y) m ≡ none)
        × (add_all prepare key duplicate xs (m ++ (key y, y) ∷ []) ≡ ok m')
  unfolding add_all
  add_all-cons-ok x xs m m' h = elim (Result-cases (prepare x)) [
    | inl (y, p) ↦ elim (Option-cases (lookup (key y) m)) [
      | inl n ↦ (y, p, n, rw (← insert-new (key y) y m n) (rw (p, n) at h))
      | inr (v, n) ↦ absurd (cc (rw (p, n) at h))
    ]
    | inr (e, p) ↦ absurd (cc (rw p at h))
  ]

  -- A finished loop has prepared every item, and the map has the prepared items under their keys,
  -- which are new.
  pub add_all-ok :
      (xs : List A) (m m' : Dict A)
      → add_all prepare key duplicate xs m ≡ ok m'
      → (ys : List A) × (prepare_all prepare xs ≡ ok ys)
        × (m' ≡ m ++ entries key ys)
        × AreFresh (keys m) (map key ys)
  add_all-ok [] m m' h = ([], refl, rw append-nil (ok-injective (unfold add_all in sym h)), tt)
  add_all-ok (x ∷ xs) m m' h =
      let (y, p, n, rest) = add_all-cons-ok x xs m m' h in
      let (ys, q, e, f) = add_all-ok xs (m ++ (key y, y) ∷ []) m' rest in
      (
        y ∷ ys,
        rw (p, q),
        e ∙ append_assoc m ((key y, y) ∷ []) (entries key ys),
        (lookup-none→IsNew (key y) m n, rw keys-append at f),
      )

  -- and with every item prepared and every key new the loop finishes
  pub ok-add_all :
      (xs ys : List A) (m : Dict A)
      → prepare_all prepare xs ≡ ok ys
      → AreFresh (keys m) (map key ys)
      → add_all prepare key duplicate xs m ≡ ok (m ++ entries key ys)
  unfolding add_all
  ok-add_all [] ys m h f = rw (← ok-injective h) (rw append-nil)
  ok-add_all (x ∷ xs) [] m h f = ground arith
  ok-add_all (x ∷ xs) (y ∷ ys) m h f =
      let (p, q) = prepare_all-cons prepare x y xs ys h in
      let n = IsNew→lookup-none (key y) m f.0 in
      let rest = ok-add_all xs ys (m ++ (key y, y) ∷ []) q (rw keys-append f.1) in
      rw (p, n, insert-new (key y) y m n)
        (rest ∙ ap ok (append_assoc m ((key y, y) ∷ []) (entries key ys)))

-- distinct from those seen and from one another
IsNew-append : (k j : String) (ks : List String) → IsNew k ks → j ≢ k → IsNew k (ks ++ j ∷ [])
IsNew-append k j [] h n = (n, tt)
IsNew-append k j (i ∷ ks) h n = (h.0, IsNew-append k j ks h.1 n)

IsOneOf-left : (j k : String) (ks : List String) → IsOneOf j ks → IsOneOf j (ks ++ k ∷ [])
IsOneOf-left j k [] h = elim h [ ]
IsOneOf-left j k (i ∷ ks) (inl e) = inl e
IsOneOf-left j k (i ∷ ks) (inr h) = inr (IsOneOf-left j k ks h)

IsOneOf-last : (k : String) (ks : List String) → IsOneOf k (ks ++ k ∷ [])
IsOneOf-last k [] = inl refl
IsOneOf-last k (i ∷ ks) = inr (IsOneOf-last k ks)

IsNew→ne : (j k : String) (ks : List String) → IsNew k ks → IsOneOf j ks → k ≢ j
IsNew→ne j k [] n h = elim h [ ]
IsNew→ne j k (i ∷ ks) n (inl e) = λ p. n.0 (e ∙ sym p)
IsNew→ne j k (i ∷ ks) n (inr h) = IsNew→ne j k ks n.1 h

AreFresh→IsNew :
    (j : String) (seen ks : List String) → IsOneOf j seen → AreFresh seen ks → IsNew j ks
AreFresh→IsNew j seen [] o f = tt
AreFresh→IsNew j seen (k ∷ ks) o f =
    (IsNew→ne j k seen f.0 o, AreFresh→IsNew j (seen ++ k ∷ []) ks (IsOneOf-left j k seen o) f.1)

pub AreFresh→AreDistinct : (seen ks : List String) → AreFresh seen ks → AreDistinct ks
AreFresh→AreDistinct seen [] f = tt
AreFresh→AreDistinct seen (k ∷ ks) f = (
  AreFresh→IsNew k (seen ++ k ∷ []) ks (IsOneOf-last k seen) f.1,
  AreFresh→AreDistinct (seen ++ k ∷ []) ks f.1,
)

pub AreDistinct→AreFresh :
    (seen ks : List String) → AreDistinct ks → All (λ k. IsNew k seen) ks → AreFresh seen ks
AreDistinct→AreFresh seen [] d n = tt
AreDistinct→AreFresh seen (k ∷ ks) d n =
    (n.0, AreDistinct→AreFresh (seen ++ k ∷ []) ks d.1 (still_new ks d.0 n.1))
  where
    still_new :
        (js : List String)
        → IsNew k js
        → All (λ j. IsNew j seen) js
        → All (λ j. IsNew j (seen ++ k ∷ [])) js
    still_new [] h a = tt
    still_new (j ∷ js) h a = (IsNew-append j k seen a.0 (λ e. h.0 (sym e)), still_new js h.1 a.1)

pub All-IsNew : (ks : List String) → All (λ k. IsNew k []) ks
All-IsNew [] = tt
All-IsNew (k ∷ ks) = (tt, All-IsNew ks)

-- A loop of checks passes exactly if every check does.
pub check_each-ok :
    {A : Type 0} (check : A → Result (Unit {0})) (xs : List A)
    → check_each check xs ≡ ok tt
    → All (λ x. check x ≡ ok tt) xs
check_each-ok check [] h = tt
check_each-ok check (x ∷ xs) h = elim (Result-cases (check x)) [
  | inl (u, p) ↦ (p, check_each-ok check xs (rw p at h))
  | inr (e, p) ↦ absurd (cc (rw p at h))
]

pub ok-check_each :
    {A : Type 0} (check : A → Result (Unit {0})) (xs : List A)
    → All (λ x. check x ≡ ok tt) xs
    → check_each check xs ≡ ok tt
ok-check_each check [] h = refl
ok-check_each check (x ∷ xs) h = rw h.0 (ok-check_each check xs h.1)

pub values-entries {ℓ} :
    {A : Type ℓ} (key : A → String) (xs : List A) → values (entries key xs) ≡ xs
values-entries key [] = refl
values-entries key (x ∷ xs) = ap (λ ys. x ∷ ys) (values-entries key xs)

pub keys-entries {ℓ} :
    {A : Type ℓ} (key : A → String) (xs : List A) → keys (entries key xs) ≡ map key xs
keys-entries key [] = refl
keys-entries key (x ∷ xs) = ap (λ ys. key x ∷ ys) (keys-entries key xs)
