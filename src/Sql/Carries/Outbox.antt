-- ===== src/Sql/Carries/Outbox.antt =====
-- `insertOutbox` of persistence/internal/sqlstore/store.go, which fills in what a message leaves out.
use fsm_go.Prelude.{
  String, ◌≡◌, refl, sym, ap, subst, false, List, [], ◌∷◌, map, ◌==◌, if◌then◌else◌, Bool-cases,
  inl, inr, arith,
}
use fsm_go.Dict.{insert}
use fsm_go.Errors.{ok, ok-injective}
use fsm_go.Types.{Time, is_zero, OutboxMessage}
use fsm_go.World.{Env, World, lift}
use fsm_go.Memory.{MemoryStore, put_outbox, clone_outbox}
use fsm_go.Sql.Database.{Database, wrapped, call}
use fsm_go.Sql.Rows.{Tables, marshal, outbox_row}
use fsm_go.Sql.Writes.{add_outbox_row, insert_outbox, with_defaults, or_time, filled}
use fsm_go.Sql.Calls.{>>=-ok}
use fsm_go.Sql.Records.{IsCodec, kept_outbox, scan_outbox-outbox_row}
use fsm_go.Sql.Shown.{Shows}
use fsm_go.Sql.Shown.Statements.{Shows-add_outbox_row}
use fsm_go.Sql.Carries.{lift-ok, Carries-statement}

-- `full` is `m` with values for the id, the status and the instants that `m` leaves out
pub record Fills (m full : OutboxMessage) : Type 0 where
  pub topic : full.topic ≡ m.topic
  pub key : full.key ≡ m.key
  pub payload : full.payload ≡ m.payload
  pub attempt : full.attempt ≡ m.attempt
  pub id : (m.id == "") ≡ false → full.id ≡ m.id
  pub status : full.status ≡ (if m.status == "" then "pending" else m.status)
  pub created_at : is_zero m.created_at ≡ false → full.created_at ≡ m.created_at
  pub updated_at : full.updated_at ≡ or_time m.updated_at full.created_at
  pub next_run_at : full.next_run_at ≡ or_time m.next_run_at full.created_at

abbrev pub FillAll : List OutboxMessage → List OutboxMessage → Type 0
FillAll [] [] = Unit {0}
FillAll (m ∷ ms) (full ∷ fulls) = Fills m full × FillAll ms fulls
FillAll _ _ = ⊥

filled-Fills :
    (m : OutboxMessage) (id : String) (now : Time)
    → ((m.id == "") ≡ false → id ≡ m.id)
    → Fills m (filled m id now)
filled-Fills m id now given = record {
  topic = refl;
  key = refl;
  payload = refl;
  attempt = refl;
  id = given;
  status = refl;
  created_at = λ e. rw e refl;
  updated_at = refl;
  next_run_at = refl;
}

module _ ⦃env : Env⦄ where
  with_defaults-Fills :
      {S : Type 0} (m : OutboxMessage) (w v : World S) (full : OutboxMessage)
      → with_defaults m w ≡ (ok full, v)
      → Fills m full × (v.store ≡ w.store)
  unfolding with_defaults
  with_defaults-Fills m w v full done = elim (Bool-cases (m.id == "")) [
    | inl e ↦
        let drawn = rw e at done in
        (
          subst (Fills m) (ok-injective (ap (λ p. p.0) drawn))
              (filled-Fills m _ _ (λ not_empty. absurd (ground arith))),
          sym (ap (λ p. p.1.store) drawn),
        )
    | inr e ↦
        let given = rw e at done in
        (
          subst (Fills m) (ok-injective (ap (λ p. p.0) given)) (filled-Fills m m.id _ (λ _. refl)),
          sym (ap (λ p. p.1.store) given),
        )
  ]

  -- `InsertOutbox` writes each message, filled in, as the store in memory writes such a message.
  pub insert_outbox-Carries :
      ⦃db : Database⦄
      → IsCodec db
      → (msgs : List OutboxMessage) (w w' : World Tables) (s : MemoryStore) → Shows w.store s
      → insert_outbox msgs w ≡ (ok tt, w')
      → (fulls : List OutboxMessage) × FillAll msgs fulls
        × Shows w'.store (record s { outbox = put_outbox (map kept_outbox fulls) s.outbox })
  unfolding insert_outbox
  insert_outbox-Carries codec [] w w' s h done =
      ([], tt, subst (λ v. Shows v.store s) (ap (λ p. p.1) done) h)
  insert_outbox-Carries codec (m ∷ msgs) w w' s h done =
      let (full, v, drawn, rest) = >>=-ok (with_defaults m) _ w w' tt done in
      let (fills, same_store) = with_defaults-Fills m w v full drawn in
      let (raw, v1, lifted, rest1) = >>=-ok (lift (marshal full.payload)) _ v w' tt rest in
      let (x, u, written, more) =
        >>=-ok (wrapped "insert outbox: " (call (add_outbox_row (outbox_row full raw))))
          (λ _. insert_outbox msgs) v1 w' tt rest1 in
      let (raw_eq, world_eq) = lift-ok (marshal full.payload) v v1 raw lifted in
      let shown =
        subst (λ x. Shows x.store s) world_eq (subst (λ t. Shows t s) (sym same_store) h) in
      let shown_more =
        Carries-statement "insert outbox: " (add_outbox_row (outbox_row full raw))
          (λ s. record s { outbox = insert full.id (clone_outbox (kept_outbox full)) s.outbox })
          (λ t t' s h done.
            Shows-add_outbox_row t t' s h (outbox_row full raw) (clone_outbox (kept_outbox full))
              done (scan_outbox-outbox_row codec full raw raw_eq))
          v1 u s shown written in
      let (fulls, fill_all, shown_all) = insert_outbox-Carries codec msgs u w' _ shown_more more in
      (full ∷ fulls, (fills, fill_all), shown_all)
