-- ===== src/Codegen/Names.antt =====
-- The constants of cmd/workflowgen/main.go.
use fsm_go.Prelude.{
  String, append, ◌≡◌, refl, sym, ap, ◌∙◌, subst, Bool, true, false, not, ◌&&◌, none, some, List,
  [], ◌∷◌, map, arith, ◌==◌, eq_iff, eq_refl, if◌then◌else◌, Bool-cases, inl, inr, keep,
}
use fsm_go.Dict.{Dict, lookup, insert, lookup_or}
use fsm_go.Dict.Laws.{lookup-insert, lookup-insert_self}
use fsm_go.Codegen.{Unicode, Constant, exported, constants, constants_from}

-- the texts without those that occurred before
abbrev pub distinct : List String → List String
distinct [] = []
distinct (v ∷ vs) = v ∷ keep (λ u. not (u == v)) (distinct vs)

abbrev pub is_text : String → Bool
is_text v = not (v == "")

abbrev unseen : Dict Bool → String → Bool
unseen seen v = not (lookup_or false v seen)

keep-keep :
    (p q r : String → Bool) (vs : List String)
    → ((v : String) → r v ≡ (q v && p v))
    → keep p (keep q vs) ≡ keep r vs
keep-keep p q r [] h = refl
keep-keep p q r (v ∷ vs) h = ground (arith, keep-keep p q r vs h, h v)

unseen-known :
    (seen : Dict Bool) (v u : String)
    → unseen seen v ≡ false
    → unseen seen u ≡ (not (u == v) && unseen seen u)
unseen-known seen v u h = elim (Bool-cases (u == v)) [
  | inl e ↦ rw ((eq_iff u v).0 e, eq_refl v, h) refl
  | inr e ↦ rw e refl
]

unseen-insert :
    (seen : Dict Bool) (v u : String)
    → unseen (insert v true seen) u ≡ (not (u == v) && unseen seen u)
unseen-insert seen v u = elim (Bool-cases (u == v)) [
  | inl e ↦
      subst (λ w. unseen (insert v true seen) w ≡ (not (w == v) && unseen seen w))
        (sym ((eq_iff u v).0 e))
        (rw (eq_refl v)
          (ap (λ o. not (elim o [ none ↦ false | some b ↦ b ])) (lookup-insert_self v true seen)))
  | inr e ↦
      let other : (v == u) ≡ false = ground (arith, e, eq_iff u v, eq_iff v u) in
      let below : (if v == u then some true else lookup u seen) ≡ lookup u seen = rw other refl in
      rw e
        (ap (λ o. not (elim o [ none ↦ false | some b ↦ b ])) (lookup-insert v u true seen ∙ below))
]

module _ ⦃unicode : Unicode⦄ (prefix : String) where
  abbrev pub named : String → Constant
  named v = record { go_name = append prefix (exported v); value = v }

  constants_from-distinct :
      (seen : Dict Bool) (values : List String)
      → constants_from prefix seen values
        ≡ map named (keep (unseen seen) (distinct (keep is_text values)))
  unfolding constants_from
  constants_from-distinct seen [] = refl
  constants_from-distinct seen (v ∷ vs) =
      let known = lookup_or false v seen in
      let texts = distinct (keep is_text vs) in
      let others : String → Bool = λ u. not (u == v) in
      elim (Bool-cases (v == "")) [
        | inl e ↦ rw e (constants_from-distinct seen vs)
        | inr e ↦ elim (Bool-cases known) [
          | inl k ↦
              rw (e, k)
                (constants_from-distinct seen vs
                  ∙ ap (map named) (
                      sym (
                        keep-keep (unseen seen) others (unseen seen) texts
                          (λ u. unseen-known seen v u (ap not k)))))
          | inr k ↦
              rw (e, k)
                (ap (λ cs. named v ∷ cs)
                  (constants_from-distinct (insert v true seen) vs
                    ∙ ap (map named) (
                        sym (
                          keep-keep (unseen seen) others (unseen (insert v true seen)) texts
                            (unseen-insert seen v)))))
        ]
      ]

  keep-all : (vs : List String) → keep (unseen []) vs ≡ vs
  unfolding lookup
  keep-all [] = refl
  keep-all (v ∷ vs) = ap (λ us. v ∷ us) (keep-all vs)

  -- A constant stands for each text of the values that is not empty, once and in the order in which the texts
  -- first occur; its name is the prefix and the exported text.
  pub constants-distinct :
      (values : List String) → constants prefix values ≡ map named (distinct (keep is_text values))
  unfolding constants
  constants-distinct values =
      constants_from-distinct [] values ∙ ap (map named) (keep-all (distinct (keep is_text values)))
