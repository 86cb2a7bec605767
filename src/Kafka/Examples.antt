-- ===== src/Kafka/Examples.antt =====
-- The adapter over a reader that is a queue in memory, and a writer that keeps what it is given.
use fsm_go.Prelude.{
  ℕ, suc, pos, String, ◌≡◌, refl, none, some, List, [], ◌∷◌, ◌++◌, arith, ◌==◌, if◌then◌else◌,
}
use mathlib.Core.List
use fsm_go.Dict.{lookup}
use fsm_go.Errors.{Error, Result, ok, err, other}
use fsm_go.Types.{OutboxMessage, nil_map}
use fsm_go.Kafka.{
  KafkaMessage, Writer, Reader, Handler, HeaderOrder, publish, incoming, consume, publish_outbox,
}
use fsm_go.Kafka.Consuming.{Delivers, consume_commits_taken}
use fsm_go.Kafka.Carrying.{outbox_carried}

-- what is pending, and what is committed
abbrev Queue : Type 0
Queue = List KafkaMessage × List KafkaMessage

abbrev fetch : List KafkaMessage → List KafkaMessage → Result KafkaMessage × Queue
fetch [] done = (err (other "context canceled"), ([], done))
fetch (raw ∷ rest) done = (ok raw, (rest, done))

abbrev queue_reader : Reader Queue
queue_reader = record {
  fetch_message = λ q. fetch q.0 q.1;
  commit_messages = λ raw q. (none, (q.0, q.1 ++ raw ∷ []));
}

abbrev queue_delivers : Delivers queue_reader
queue_delivers = record {
  pending = λ q. q.0;
  committed = λ q. q.1;
  fetch_next = λ q raw rest p. ((rest, q.1), rw p, refl, refl);
  fetch_end = λ q p. (other "context canceled", ([], q.1), rw p, refl, refl);
  commit_kept = λ raw q. ((q.0, q.1 ++ raw ∷ []), refl, refl, refl);
}

abbrev raw_with : String → KafkaMessage
raw_with key = record { topic = "orders"; key = key; value = "{}"; headers = []; time = pos 1 }

-- counts the messages, and refuses the key "bad"
abbrev counting : Handler ℕ
counting msg n = if msg.key == "bad" then (some (other "refused"), suc n) else (none, suc n)

abbrev three : List KafkaMessage
three = raw_with "a" ∷ raw_with "bad" ∷ raw_with "b" ∷ []

consume_commits_taken_example :
    (e : Error) × (q : Queue) × (consume 4 queue_reader counting (three, []) 0 ≡ (some e, (q, 2)))
    × (q.1 ≡ raw_with "a" ∷ [])
unfolding incoming
consume_commits_taken_example =
    consume_commits_taken queue_reader counting queue_delivers 4 three (three, []) 0 refl
      (omega arith)

abbrev as_is : HeaderOrder
as_is = record { headers = λ d. d; headers_perm = λ d. List.Permᴰ.refl d }

abbrev keeps : Writer (List KafkaMessage)
keeps raw sent = (none, raw ∷ sent)

abbrev entry : OutboxMessage
entry = record {
  id = "out-1";
  topic = "orders";
  key = "order-7";
  payload = nil_map;
  status = "pending";
  attempt = pos 0;
  next_run_at = pos 0;
  created_at = pos 0;
  updated_at = pos 0;
}

outbox_carried_example :
    (raw : KafkaMessage) × (publish_outbox (λ _. ok "null") (publish as_is keeps (pos 9)) entry []
      ≡ keeps raw [])
    × let got = incoming (record raw { topic = "orders" }) in
      (got.key ≡ "order-7")
      × (got.payload ≡ "null")
      × (lookup "workflow_outbox_id" got.headers ≡ some "out-1")
      × (got.id ≡ "order-7")
outbox_carried_example =
    outbox_carried as_is keeps (λ _. ok "null") (pos 9) entry "null" "orders" [] refl
