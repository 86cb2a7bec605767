-- ===== src/Kafka/Carrying.antt =====
-- What a consumer sees of an outbox entry that `PublishOutbox` has written.
use fsm_go.Prelude.{
  String, ◌≡◌, refl, ap, some, List, [], ◌∷◌, Permᴰ, All, All-perm, length, length-perm, arith,
}
use mathlib.Core.List
use fsm_go.Dict.{lookup, insert}
use fsm_go.Errors.{Result, ok}
use fsm_go.Types.{AnyMap, Time, OutboxMessage}
use fsm_go.Kafka.{
  KafkaMessage, Writer, HeaderOrder, outgoing, publish, read_headers, incoming, outbox_message,
  publish_outbox,
}

singleton-perm : {A : Type 0} {x : A} (xs : List A) → Permᴰ xs (x ∷ []) → xs ≡ x ∷ []
singleton-perm {A} {x} xs p =
    go xs (length-perm p) (All-perm (λ y. y ≡ x) (List.Permᴰ.symm p) (refl, tt))
  where
    go : (ys : List A) → length ys ≡ 1 → All (λ y. y ≡ x) ys → ys ≡ x ∷ []
    go [] h same = absurd (omega arith)
    go (y ∷ []) h same = ap (λ z. z ∷ []) same.0
    go (y ∷ z ∷ zs) h same = absurd (omega arith)

-- An entry whose payload json.Marshal takes is written as one message; under whatever topic the writer
-- fills in, the consumer gets the entry's key and the marshalled payload, and the entry's id in the header
-- workflow_outbox_id, but as the message's ID it gets the key.
pub outbox_carried :
    {K : Type 0} (order : HeaderOrder) (write : Writer K) (marshal : AnyMap → Result String)
    (now : Time) (msg : OutboxMessage) (payload topic : String) (k : K)
    → marshal msg.payload ≡ ok payload
    → (raw : KafkaMessage) × (publish_outbox marshal (publish order write now) msg k ≡ write raw k)
      × let got = incoming (record raw { topic = topic }) in
        (got.key ≡ msg.key)
        × (got.payload ≡ payload)
        × (lookup "workflow_outbox_id" got.headers ≡ some msg.id)
        × (got.id ≡ msg.key)
unfolding publish_outbox publish incoming read_headers lookup insert
outbox_carried order write marshal now msg payload topic k fine = (
  outgoing order now (outbox_message msg payload),
  rw (publish_outbox, fine),
  (
    refl,
    refl,
    rw (singleton-perm _ (order.headers_perm (("workflow_outbox_id", msg.id) ∷ []))),
    refl,
  ),
)
