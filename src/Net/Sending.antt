-- ===== src/Net/Sending.antt =====
-- Addressing a peer by name and the outbox of the TCP transport, in
-- crates/meta-text-backend/src/network.rs. The outbox of an absent peer is a missing entry or an empty
-- queue.
pub mod Kept
pub mod Bounds
pub mod Flush
pub mod Delivery
mod Tests
use meta_text.Prelude.{
  ℕ, ◌+◌, ◌-◌, Bool, true, false, List, [], ◌∷◌, ◌++◌, Option, none, some, length, leb, ltb,
  if◌then◌else◌,
}
use meta_text.Prelude.Text.{Text, is_empty, trim, to_ascii_lowercase}
use meta_text.Prelude.Assoc.{lookup, insert, remove, text_key}
use meta_text.Trust.{fetch_add}
use meta_text.Net.Frame.{MessageKind, ContentType, encode_message_frame}
use meta_text.Net.Peers.{
  NetworkManager, Peers, Outbox, OutboxEntry, Channels, SendOutcome, sent, queued, dropped,
  outbox_capacity, outbox_ttl, answers_to, peer_senders, dispatch_to, queue_to,
}

-- `entry(key).or_default()`, or `remove(key).unwrap_or_default()`
abbrev pub or_default : Option (List OutboxEntry) → List OutboxEntry
or_default none = []
or_default (some queue) = queue

-- `now.duration_since(queued_at) < OUTBOX_TTL`, where the difference stops at 0
abbrev pub is_fresh : ℕ → OutboxEntry → Bool
is_fresh now entry = ltb (now - entry.queued_at) outbox_ttl

-- the fresh part of `partition`; also `queue.retain(…)`
unfoldable pub fresh_entries : ℕ → List OutboxEntry → List OutboxEntry
fresh_entries now [] = []
fresh_entries now (entry ∷ queue) =
    let rest = fresh_entries now queue in if is_fresh now entry then entry ∷ rest else rest

pub enqueue :
    ℕ
    → Text
    → ℕ
    → List ℕ
    → MessageKind
    → ContentType
    → NetworkManager
    → SendOutcome × NetworkManager
enqueue now nickname message_id ciphertext kind content_type m =
    let queue = or_default (lookup nickname m.outbox) in
    let entry : OutboxEntry = record {
      message_id = message_id;
      ciphertext = ciphertext;
      kind = kind;
      content_type = content_type;
      queued_at = now;
    } in
    if leb outbox_capacity (length queue)
    then (dropped, record m { outbox = insert nickname queue m.outbox })
    else (
      queued message_id (length (queue ++ entry ∷ [])),
      record m { outbox = insert nickname (queue ++ entry ∷ []) m.outbox },
    )

pub queued_messages : Outbox → ℕ
queued_messages [] = 0
queued_messages ((nickname, queue) ∷ outbox) = length queue + queued_messages outbox

-- `outbox.retain(…)`, with the count of what was dropped
prune : ℕ → Outbox → Outbox × ℕ
unfolding fresh_entries
prune now [] = ([], 0)
prune now ((nickname, queue) ∷ outbox) =
    let queue' = fresh_entries now queue in
    let (rest, expired) = prune now outbox in
    (
      if is_empty queue' then rest else (nickname, queue') ∷ rest,
      (length queue - length queue') + expired,
    )

pub prune_outbox : ℕ → NetworkManager → NetworkManager
unfolding prune
prune_outbox now m =
    let (outbox, expired) = prune now m.outbox in
    let pruned : NetworkManager = record m { outbox = outbox } in
    if ltb 0 expired
    then record pruned { outbox_expired = fetch_add m.outbox_expired expired }
    else pruned

-- The first half of a flush, under the lock: the whole queue of a name is taken out.
pub take_queue : ℕ → Text → NetworkManager → List OutboxEntry × NetworkManager
unfolding fresh_entries
take_queue now key m =
    let queue = or_default (lookup key m.outbox) in
    let fresh = fresh_entries now queue in
    let expired = length queue - length fresh in
    let taken : NetworkManager = record m { outbox = remove key m.outbox } in
    (
      fresh,
      if ltb 0 expired
          then record taken { outbox_expired = fetch_add m.outbox_expired expired }
          else taken,
    )

-- The last part, under the lock again: what was not handed over goes behind what is there.
pub put_back : Text → List OutboxEntry → NetworkManager → NetworkManager
put_back key [] m = m
put_back key (entry ∷ entries) m = record m {
  outbox = insert key (or_default (lookup key m.outbox) ++ entry ∷ entries) m.outbox;
}

pub entry_frame : OutboxEntry → List ℕ
entry_frame entry =
    encode_message_frame entry.message_id entry.ciphertext entry.kind entry.content_type

module _ (mpsc : Channels) where
  open mpsc use {Store}

  -- The loop: what was handed over, and what remains from the first entry that a queue refused.
  pub send_entries :
      ℕ
      → List OutboxEntry
      → ℕ
      → Store
      → NetworkManager
      → ℕ × List OutboxEntry × Store × NetworkManager
  unfolding entry_frame
  send_entries remote [] flushed c m = (flushed, [], c, m)
  send_entries remote (entry ∷ entries) flushed c m =
      let (delivered, c', m') = queue_to mpsc remote (entry_frame entry) c m in
      let next = send_entries remote entries (flushed + 1) c' m' in
      if delivered then next else (flushed, entry ∷ entries, c', m')

  pub flush_outbox : ℕ → Text → ℕ → Store → NetworkManager → ℕ × Store × NetworkManager
  unfolding take_queue send_entries put_back
  flush_outbox now nickname remote c m =
      let key = to_ascii_lowercase nickname in
      let (fresh, taken) = take_queue now key m in
      let (flushed, remaining, c', m') = send_entries remote fresh 0 c taken in
      (flushed, c', put_back key remaining m')

  pub send_ciphertext_to_peer :
      ℕ
      → Text
      → List ℕ
      → MessageKind
      → ContentType
      → Store
      → NetworkManager
      → SendOutcome × Store × NetworkManager
  unfolding enqueue
  send_ciphertext_to_peer now nickname ciphertext kind content_type c m =
      let wanted = to_ascii_lowercase (trim nickname) in
      let senders = peer_senders (answers_to wanted) m.peers in
      let (receipt, c', m') = dispatch_to mpsc senders ciphertext kind content_type c m in
      let message_id = m.next_message_id in
      let counted : NetworkManager = record m { next_message_id = fetch_add message_id 1 } in
      let (outcome, m'') = enqueue now wanted message_id ciphertext kind content_type counted in
      if is_empty (trim nickname)
      then (dropped, c, m)
      else if is_empty senders
      then (outcome, c, m'')
      else (sent receipt, c', m')
