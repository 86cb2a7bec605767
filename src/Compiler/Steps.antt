-- ===== src/Compiler/Steps.antt =====
-- Each step of `Compile` passes exactly if its part of the definition is valid.
use fsm_go.Prelude.{
  String, ◌≡◌, refl, sym, ap, ◌∙◌, ◌≢◌, List, [], ◌∷◌, map, arith, eq_iff, subst, All,
}
use fsm_go.Dict.{Dict}
use fsm_go.Dict.Laws.{AreDistinct}
use fsm_go.Errors.{Error, Result, ok}
use fsm_go.Compiler.{prepare_state, prepare_event, prepare_task, with_defaults, add_all}
use fsm_go.Compiler.Loops.{
  prepare_all, prepare_all-cons, entries, add_all-ok, ok-add_all, AreFresh→AreDistinct,
  AreDistinct→AreFresh, All-IsNew,
}
use fsm_go.Errors.{ok-injective}
use fsm_go.Compiler.Valid.{IsNamed}

-- `prepare` turns `x` into `f x` if `P x`, and fails otherwise.
pub record Prepares {A : Type 0} (prepare : A → Result A) (f : A → A) (P : A → Type 0)
    : Type 0 where
  pub passes : (x : A) → P x → prepare x ≡ ok (f x)
  pub needs : (x y : A) → prepare x ≡ ok y → (y ≡ f x) × P x

module _ {A : Type 0} {prepare : A → Result A} {f : A → A} {P : A → Type 0}
    (law : Prepares prepare f P) where
  prepare_all-needs : (xs ys : List A) → prepare_all prepare xs ≡ ok ys → (ys ≡ map f xs) × All P xs
  prepare_all-needs [] ys h = (sym (ok-injective h), tt)
  prepare_all-needs (x ∷ xs) [] h = ground arith
  prepare_all-needs (x ∷ xs) (y ∷ ys) h =
      let (p, q) = prepare_all-cons prepare x y xs ys h in
      let (e, holds) = law.needs x y p in
      let (es, rest) = prepare_all-needs xs ys q in (cc (e, es), (holds, rest))

  prepare_all-passes : (xs : List A) → All P xs → prepare_all prepare xs ≡ ok (map f xs)
  prepare_all-passes [] h = refl
  prepare_all-passes (x ∷ xs) h = rw (law.passes x h.0, prepare_all-passes xs h.1)

  module _ (key : A → String) (duplicate : String → Error) where
    -- The loop's outcome: the index of the prepared items, if all pass and no key stands twice.
    pub add_all-needs :
        (xs : List A) (m : Dict A)
        → add_all prepare key duplicate xs [] ≡ ok m
        → (m ≡ entries key (map f xs)) × All P xs × AreDistinct (map key (map f xs))
    add_all-needs xs m h =
        let (ys, p, e, fresh) = add_all-ok prepare key duplicate xs [] m h in
        let (q, holds) = prepare_all-needs xs ys p in
        (
          e ∙ ap (entries key) q,
          holds,
          subst (λ l. AreDistinct (map key l)) q (AreFresh→AreDistinct [] (map key ys) fresh),
        )

    pub add_all-passes :
        (xs : List A)
        → All P xs
        → AreDistinct (map key (map f xs))
        → add_all prepare key duplicate xs [] ≡ ok (entries key (map f xs))
    add_all-passes xs h d =
        ok-add_all prepare key duplicate xs (map f xs) [] (prepare_all-passes xs h)
          (AreDistinct→AreFresh [] (map key (map f xs)) d (All-IsNew (map key (map f xs))))

pub Prepares-state : Prepares prepare_state (λ s. s) (λ s. s.name ≢ "")
unfolding prepare_state
Prepares-state = record {
  passes = λ s h. ground (arith, eq_iff s.name "");
  needs = λ s y h. (ground arith, λ e. ground (arith, eq_iff s.name ""));
}

pub Prepares-event : Prepares prepare_event (λ e. e) (λ e. e.name ≢ "")
unfolding prepare_event
Prepares-event = record {
  passes = λ e h. ground (arith, eq_iff e.name "");
  needs = λ e y h. (ground arith, λ p. ground (arith, eq_iff e.name ""));
}

pub Prepares-task : Prepares prepare_task with_defaults IsNamed
unfolding prepare_task
Prepares-task = record {
  passes = λ t h. ground (arith, eq_iff t.name "", eq_iff t.handler "", h.0, h.1);
  needs = λ t y h. (
    ground arith,
    (λ p. ground (arith, eq_iff t.name ""), λ p. ground (arith, eq_iff t.handler "")),
  );
}
