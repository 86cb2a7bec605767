-- ===== src/Kafka/Consuming.antt =====
-- What `Consume` commits: the messages that the handler has taken, and no other.
use fsm_go.Prelude.{
  ℕ, zero, suc, ◌<◌, ◌≡◌, sym, ap, ◌∙◌, none, some, List, [], ◌∷◌, ◌++◌, length, arith,
  Option-cases, inl, inr,
}
use mathlib.Core.List.{append-nil, append_assoc}
use fsm_go.Errors.{Error, ok, err}
use fsm_go.Kafka.{KafkaMessage, Reader, Handler, incoming, consume}

-- What a reader of a topic does while the broker answers: it hands out what is pending in order, and ends
-- with an error where nothing is left, when its context is cancelled; a commit is kept.
pub record Delivers {K : Type 0} (reader : Reader K) : Type 0 where
  pub pending : K → List KafkaMessage
  pub committed : K → List KafkaMessage
  pub fetch_next :
      (k : K) (raw : KafkaMessage) (rest : List KafkaMessage)
      → pending k ≡ raw ∷ rest
      → (k' : K) × (reader.fetch_message k ≡ (ok raw, k'))
        × (pending k' ≡ rest)
        × (committed k' ≡ committed k)
  pub fetch_end :
      (k : K)
      → pending k ≡ []
      → (e : Error) × (k' : K) × (reader.fetch_message k ≡ (err e, k'))
        × (pending k' ≡ [])
        × (committed k' ≡ committed k)
  pub commit_kept :
      (raw : KafkaMessage) (k : K)
      → (k' : K) × (reader.commit_messages raw k ≡ (none, k'))
        × (pending k' ≡ pending k)
        × (committed k' ≡ committed k ++ raw ∷ [])

-- the messages that a handler takes, up to the first that it refuses, and what becomes of its state
abbrev pub taken : {H : Type 0} → Handler H → List KafkaMessage → H → List KafkaMessage × H
taken handler [] h = ([], h)
taken handler (raw ∷ rest) h =
    let (failed, h₁) = handler (incoming raw) h in
    elim failed [
      | some e ↦ ([], h₁)
      | none ↦ let (done, h₂) = taken handler rest h₁ in (raw ∷ done, h₂)
    ]

taken_on :
    {H : Type 0} (handler : Handler H) (raw : KafkaMessage) (rest : List KafkaMessage) (h : H)
    → (handler (incoming raw) h).0 ≡ none
    → taken handler (raw ∷ rest) h ≡ (
      raw ∷ (taken handler rest (handler (incoming raw) h).1).0,
      (taken handler rest (handler (incoming raw) h).1).1,
    )
taken_on handler raw rest h took = rw (taken, took)

-- a round in which all goes well
consume_on :
    {K H : Type 0} (reader : Reader K) (handler : Handler H) (n : ℕ) (raw : KafkaMessage)
    {k k₁ k₂ : K} (h : H)
    → reader.fetch_message k ≡ (ok raw, k₁)
    → (handler (incoming raw) h).0 ≡ none
    → reader.commit_messages raw k₁ ≡ (none, k₂)
    → consume (suc n) reader handler k h ≡ consume n reader handler k₂ (handler (incoming raw) h).1
unfolding consume
consume_on reader handler n raw h fetch took commit =
    rw (consume, fetch, took, fetch, commit, fetch, commit)

module _ {K H : Type 0} (reader : Reader K) (handler : Handler H) (delivers : Delivers reader) where
  -- Over a reader that delivers what is pending in order, fails when nothing is left, and keeps commits:
  -- with more rounds than messages are pending, `Consume` ends with an error; it has committed exactly the
  -- messages that the handler took, in order, up to the first that the handler refused; and the handler's
  -- state is that of a run over these and that one, once each.
  pub consume_commits_taken :
      (n : ℕ) (todo : List KafkaMessage) (k : K) (h : H)
      → delivers.pending k ≡ todo
      → length todo < n
      → (e : Error) × (k' : K) × (consume n reader handler k h
          ≡ (some e, (k', (taken handler todo h).1)))
        × (delivers.committed k' ≡ delivers.committed k ++ (taken handler todo h).0)
  unfolding consume
  consume_commits_taken zero todo k h p room = absurd (omega arith)
  consume_commits_taken (suc n) [] k h p room =
      let (e, k', fetch, _, same) = delivers.fetch_end k p in
      (e, k', rw (consume, fetch, fetch), same ∙ sym (append-nil (delivers.committed k)))
  consume_commits_taken (suc n) (raw ∷ rest) k h p room =
      let (k₁, fetch, left, same) = delivers.fetch_next k raw rest p in
      let (k₂, commit, left₂, kept) = delivers.commit_kept raw k₁ in
      elim (Option-cases (handler (incoming raw) h).0) [
        | inr (e, refused) ↦ (
          e,
          k₁,
          rw (consume, fetch, refused, fetch, taken),
          same ∙ rw (taken, refused) (sym (append-nil (delivers.committed k))),
        )
        | inl took ↦
            let (e, k', run, done) =
              consume_commits_taken n rest k₂ (handler (incoming raw) h).1 (left₂ ∙ left)
                (omega arith) in
            let all = taken_on handler raw rest h took in
            (
              e,
              k',
              consume_on reader handler n raw h fetch took commit
                  ∙ run
                  ∙ ap (λ x. (some e, (k', x.1))) (sym all),
              done
                  ∙ ap (λ c. c ++ (taken handler rest (handler (incoming raw) h).1).0)
                      (kept ∙ ap (λ c. c ++ raw ∷ []) same)
                  ∙ append_assoc (delivers.committed k) (raw ∷ [])
                      (taken handler rest (handler (incoming raw) h).1).0
                  ∙ ap (λ x. delivers.committed k ++ x.0) (sym all),
            )
      ]
