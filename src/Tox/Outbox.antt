-- ===== src/Tox/Outbox.antt =====
-- The outbox of crates/meta-text-backend/src/transport.rs: payloads that wait for an offline friend.
-- The Tox client is a parameter: whether a send succeeds is its answer, and it keeps a state.
pub mod Queues
pub mod Bounds
pub mod Flush
pub mod Interleaving
mod Tests
use meta_text.Prelude.{
  ℕ, zero, suc, ◌+◌, ◌-◌, ◌%◌, Bool, true, false, List, [], ◌∷◌, ◌++◌, Option, none, some, length,
  leb, ltb, ◌==◌, if◌then◌else◌,
}
use meta_text.Prelude.Assoc.{lookup, insert, remove, number_key}
use meta_text.Hex.{Hex}
use meta_text.Net.Frame.{MessageKind}
use meta_text.Tox.State.{
  QueuedMessage, Queue, ToxOutbox, ToxTransport, queued_age, tox_outbox_ttl, tox_outbox_capacity,
  fetch_add, persist,
}

-- `queue.retain(…)`
unfoldable pub prune_queue : ℕ → Queue → Queue
prune_queue now [] = []
prune_queue now (m ∷ q) =
    let rest = prune_queue now q in
    if ltb (queued_age now m.queued_at) tox_outbox_ttl then m ∷ rest else rest

abbrev pub is_nil {ℓ} : {A : Type ℓ} → List A → Bool
is_nil [] = true
is_nil (x ∷ xs) = false

-- `outbox.retain(…)`, with the count of what was dropped
pub prune_outbox : ℕ → ToxOutbox → ToxOutbox × ℕ
unfolding prune_queue
prune_outbox now [] = ([], 0)
prune_outbox now ((n, q) ∷ outbox) =
    let q' = prune_queue now q in
    let (rest, dropped) = prune_outbox now outbox in
    (if is_nil q' then rest else (n, q') ∷ rest, (length q - length q') + dropped)

pub outbox_len : ToxOutbox → ℕ
outbox_len [] = 0
outbox_len ((n, q) ∷ outbox) = length q + outbox_len outbox

-- the queue of `entry(n).or_default()`
abbrev pub queue_or_default : Option Queue → Queue
queue_or_default none = []
queue_or_default (some q) = q

pop_from : ℕ → ToxOutbox → Option Queue → Option QueuedMessage × ToxOutbox
pop_from n outbox none = (none, outbox)
pop_from n outbox (some []) = (none, remove n outbox)
pop_from n outbox (some (m ∷ q)) = (some m, insert n q outbox)

pub pop_outbox : ℕ → ToxOutbox → Option QueuedMessage × ToxOutbox
unfolding pop_from
pop_outbox n outbox = pop_from n outbox (lookup n outbox)

-- `entry(n).or_default().push_front(m)`
pub push_front : ℕ → QueuedMessage → ToxOutbox → ToxOutbox
push_front n m outbox = insert n (m ∷ queue_or_default (lookup n outbox)) outbox

pub data ToxMessageKind : Type 0 where
  normal action : ToxMessageKind

pub tox_message_kind : MessageKind → ToxMessageKind
tox_message_kind MessageKind.text = normal
tox_message_kind MessageKind.action = ToxMessageKind.action

pub record ToxClient : Type 1 where
  pub Client : Type 0
  -- `send_message_typed(…)`: whether it succeeded
  pub send : ℕ → List ℕ → ToxMessageKind → Client → Bool × Client

module _ (tox : ToxClient) where
  open tox use {Client, send}

  -- The loop, with fuel for one more round than the queue has entries: the count of what was sent,
  -- the client, and the outbox.
  pub flush_loop : ℕ → ℕ → ℕ → Client → ToxOutbox → ℕ × Client × ToxOutbox
  flush_loop zero n sent c outbox = (sent, c, outbox)
  flush_loop (suc fuel) n sent c outbox =
      let (entry, popped) = pop_outbox n outbox in
      elim entry [
        | none ↦ (sent, c, popped)
        | some m ↦
            let (delivered, c') = send n m.body (tox_message_kind m.kind) c in
            let next = flush_loop fuel n (sent + 1) c' popped in
            if delivered then next else (sent, c', push_front n m popped)
      ]

  pub flush_outbox : ℕ → Client → ToxOutbox → ℕ × Client × ToxOutbox
  unfolding flush_loop
  flush_outbox n c outbox =
      flush_loop (suc (length (queue_or_default (lookup n outbox)))) n 0 c outbox

pub data SendOutcome : Type 0 where
  -- a `DeliveryReceipt`: the identifier and the count of peers
  sent : ℕ → ℕ → SendOutcome
  queued : ℕ → ℕ → SendOutcome
  dropped : SendOutcome

module _ (hex : Hex) where
  -- what `enqueue` does after the pruning, with the identifier that it took
  pub enqueue_pruned :
      ℕ → Bool → ℕ → ℕ → List ℕ → MessageKind → ToxTransport → SendOutcome × ToxTransport
  enqueue_pruned now published message_id n payload kind t =
      let queue = queue_or_default (lookup n t.outbox) in
      let entry : QueuedMessage = record {
        message_id = message_id;
        body = payload;
        kind = kind;
        queued_at = now;
      } in
      if leb tox_outbox_capacity (length queue) then (dropped, t) else (
        queued message_id (length (queue ++ entry ∷ [])),
        persist hex published (record t { outbox = insert n (queue ++ entry ∷ []) t.outbox }),
      )

  pub enqueue : ℕ → Bool → ℕ → List ℕ → MessageKind → ToxTransport → SendOutcome × ToxTransport
  unfolding enqueue_pruned
  enqueue now published n payload kind t =
      let (outbox, expired) = prune_outbox now t.outbox in
      enqueue_pruned now published t.next_message_id n payload kind (record t {
        outbox = outbox;
        expired = fetch_add t.expired expired;
        next_message_id = fetch_add t.next_message_id 1;
      })

  pub queued_messages : ℕ → Bool → ToxTransport → ℕ × ToxTransport
  queued_messages now published t =
      let (outbox, expired) = prune_outbox now t.outbox in
      let pruned : ToxTransport = record t {
        outbox = outbox;
        expired = fetch_add t.expired expired;
      } in
      if ltb 0 expired
      then (outbox_len outbox, persist hex published pruned)
      else (outbox_len outbox, record t { outbox = outbox })
