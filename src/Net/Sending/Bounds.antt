-- ===== src/Net/Sending/Bounds.antt =====
-- The bound of the outbox in crates/meta-text-backend/src/network.rs, and every branch of a send.
use mathlib.Core.Path.{subst}
use meta_text.Prelude.{
  ℕ, ◌+◌, ◌≤◌, ◌≡◌, refl, sym, ap, ◌∙◌, true, false, inl, inr, List, [], ◌∷◌, ◌++◌, length, ltb,
  leb, if◌then◌else◌, arith, Bool-cases, Option-cases, length-append,
}
use meta_text.Prelude.Text.{Text, is_empty, trim, to_ascii_lowercase, text_eq}
use meta_text.Prelude.Assoc.{lookup, remove, text_key, number_key}
use meta_text.Prelude.Assoc.Distinct.{Entries, insert-Entries, remove-Entries, lookup-Entries}
use meta_text.Trust.{fetch_add}
use meta_text.Net.Frame.{MessageKind, ContentType, encode_message_frame}
use meta_text.Net.Peers.Offers.{offers}
use meta_text.Net.Peers.{
  Channels, NetworkManager, OutboxEntry, Outbox, SendOutcome, dropped, queued, sent,
  outbox_capacity, queue_to, dispatch_to, peer_senders, answers_to,
}
use meta_text.Net.Sending.{
  fresh_entries, take_queue, put_back, entry_frame, send_entries, flush_outbox, prune, prune_outbox,
  enqueue, send_ciphertext_to_peer,
}
use meta_text.Net.Sending.Flush.{queue_of, queue_of-remove, take_queue-rest}
use meta_text.Net.Sending.Kept.{queue_to-keeps}

-- a queue of at most 32 messages, whatever its name
abbrev pub IsShort : Text → List OutboxEntry → Type 0
IsShort name queue = length queue ≤ outbox_capacity

abbrev pub IsBounded : Outbox → Type 0
IsBounded = Entries IsShort

queue_of-IsShort :
    (key : Text) (outbox : Outbox) → IsBounded outbox → IsShort key (queue_of key outbox)
queue_of-IsShort key outbox b = elim (Option-cases (lookup key outbox)) [
  | inl e ↦ rw e (omega arith)
  | inr (queue, e) ↦ rw e (lookup-Entries IsShort key outbox b e)
]

pub length-fresh_entries :
    (now : ℕ) (queue : List OutboxEntry) → length (fresh_entries now queue) ≤ length queue
unfolding fresh_entries
length-fresh_entries now [] = omega arith
length-fresh_entries now (entry ∷ queue) = ground (arith, length-fresh_entries now queue)

prune-IsBounded : (now : ℕ) (outbox : Outbox) → IsBounded outbox → IsBounded (prune now outbox).0
unfolding prune
prune-IsBounded now [] b = tt
prune-IsBounded now ((name, queue) ∷ outbox) (short, b) =
    let rest = prune-IsBounded now outbox b in
    elim (Bool-cases (is_empty (fresh_entries now queue))) [
      | inl e ↦ rw e rest
      | inr e ↦ rw e (omega (arith, length-fresh_entries now queue), rest)
    ]

prune_outbox-IsBounded :
    (now : ℕ) (m : NetworkManager) → IsBounded m.outbox → IsBounded (prune_outbox now m).outbox
unfolding prune_outbox
prune_outbox-IsBounded now m b = elim (Bool-cases (ltb 0 (prune now m.outbox).1)) [
  | inl e ↦ rw e (prune-IsBounded now m.outbox b)
  | inr e ↦ rw e (prune-IsBounded now m.outbox b)
]

enqueue-IsBounded :
    (now : ℕ) (nickname : Text) (message_id : ℕ) (ciphertext : List ℕ) (kind : MessageKind)
    (content_type : ContentType) (m : NetworkManager)
    → IsBounded m.outbox
    → IsBounded (enqueue now nickname message_id ciphertext kind content_type m).1.outbox
unfolding enqueue
enqueue-IsBounded now nickname message_id ciphertext kind content_type m b =
    let queue = queue_of nickname m.outbox in
    let entry : OutboxEntry = record {
      message_id = message_id;
      ciphertext = ciphertext;
      kind = kind;
      content_type = content_type;
      queued_at = now;
    } in
    elim (Bool-cases (leb outbox_capacity (length queue))) [
      | inl e ↦
          rw e (
            insert-Entries IsShort nickname queue m.outbox (queue_of-IsShort nickname m.outbox b) b)
      | inr e ↦ rw e (
          insert-Entries IsShort nickname (queue ++ entry ∷ []) m.outbox
            (ground (arith, length-append queue (entry ∷ []))) b)
    ]

-- the outbox after a message was put behind `queue`, where it fits
abbrev pub appended : Text → OutboxEntry → Outbox → Text → List OutboxEntry
appended wanted entry outbox j =
    if leb outbox_capacity (length (queue_of wanted outbox))
    then queue_of j outbox
    else if text_eq wanted j
    then queue_of wanted outbox ++ entry ∷ []
    else queue_of j outbox

module _ (mpsc : Channels) where
  open mpsc use {Store}

  -- what remains of a list is no longer than it, and the outbox is not touched
  send_entries-outbox :
      (remote : ℕ) (entries : List OutboxEntry) (flushed : ℕ) (c : Store) (m : NetworkManager)
      → (length (send_entries mpsc remote entries flushed c m).1 ≤ length entries)
        × ((send_entries mpsc remote entries flushed c m).3.outbox ≡ m.outbox)
  unfolding send_entries
  send_entries-outbox remote [] flushed c m = (omega arith, refl)
  send_entries-outbox remote (entry ∷ entries) flushed c m =
      let (delivered, c', m') = queue_to mpsc remote (entry_frame entry) c m in
      let (shorter, same) = send_entries-outbox remote entries (flushed + 1) c' m' in
      let here =
        queue_to-keeps mpsc (λ n. n.outbox) (λ n count. refl) remote (entry_frame entry) c m in
      elim (Bool-cases delivered) [
        | inl e ↦ rw e (omega (arith, shorter), same ∙ here)
        | inr e ↦ rw e (omega arith, here)
      ]

  put_back-IsBounded :
      (key : Text) (entries : List OutboxEntry) (m : NetworkManager)
      → queue_of key m.outbox ≡ []
      → length entries ≤ outbox_capacity
      → IsBounded m.outbox
      → IsBounded (put_back key entries m).outbox
  unfolding put_back
  put_back-IsBounded key [] m e short b = b
  put_back-IsBounded key (entry ∷ entries) m e short b =
      insert-Entries IsShort key (queue_of key m.outbox ++ entry ∷ entries) m.outbox
        (ground (arith, e)) b

  flush_outbox-IsBounded :
      (now : ℕ) (nickname : Text) (remote : ℕ) (c : Store) (m : NetworkManager)
      → IsBounded m.outbox
      → IsBounded (flush_outbox mpsc now nickname remote c m).2.outbox
  unfolding flush_outbox
  flush_outbox-IsBounded now nickname remote c m b =
      let key = to_ascii_lowercase nickname in
      let queue = queue_of key m.outbox in
      let (fresh, taken) = take_queue now key m in
      let (same_fresh, same_outbox, _, _, _) = take_queue-rest now key m in
      let (shorter, same) = send_entries-outbox remote fresh 0 c taken in
      let later = (send_entries mpsc remote fresh 0 c taken).3 in
      let removed : later.outbox ≡ remove key m.outbox = same ∙ same_outbox in
      put_back-IsBounded key (send_entries mpsc remote fresh 0 c taken).1 later
        (ap (queue_of key) removed
          ∙ ground (arith, queue_of-remove key key m.outbox, text_key.beq_iff key key))
        (ground (
          arith,
          shorter,
          ap length same_fresh,
          length-fresh_entries now queue,
          queue_of-IsShort key m.outbox b,
        ))
        (subst IsBounded (sym removed) (remove-Entries IsShort key m.outbox b))

  send_ciphertext_to_peer-IsBounded :
      (now : ℕ) (nickname : Text) (ciphertext : List ℕ) (kind : MessageKind)
      (content_type : ContentType) (c : Store) (m : NetworkManager)
      → IsBounded m.outbox
      → IsBounded
          (send_ciphertext_to_peer mpsc now nickname ciphertext kind content_type c m).2.outbox
  unfolding send_ciphertext_to_peer dispatch_to
  send_ciphertext_to_peer-IsBounded now nickname ciphertext kind content_type c m b =
      let wanted = to_ascii_lowercase (trim nickname) in
      let counted : NetworkManager = record m { next_message_id = fetch_add m.next_message_id 1 } in
      elim (Bool-cases (is_empty (trim nickname))) [
        | inl blank ↦ rw blank b
        | inr named ↦ elim (Bool-cases (is_empty (peer_senders (answers_to wanted) m.peers))) [
          | inl absent ↦
              rw (named, absent)
                (enqueue-IsBounded now wanted m.next_message_id ciphertext kind content_type counted
                  b)
          | inr present ↦ rw (named, present) b
        ]
      ]

  abbrev pub Addressed :
      ℕ
      → Text
      → List ℕ
      → MessageKind
      → ContentType
      → Store
      → NetworkManager
      → SendOutcome × Store × NetworkManager
      → Type 0
  Addressed now nickname ciphertext kind content_type c m (outcome, c', m') =
      let wanted = to_ascii_lowercase (trim nickname) in
      let senders = peer_senders (answers_to wanted) m.peers in
      let queue = queue_of wanted m.outbox in
      let entry : OutboxEntry = record {
        message_id = m.next_message_id;
        ciphertext = ciphertext;
        kind = kind;
        content_type = content_type;
        queued_at = now;
      } in
      (is_empty (trim nickname) ≡ true → (outcome ≡ dropped) × (c' ≡ c) × (m' ≡ m))
      × (is_empty (trim nickname) ≡ false
          → is_empty senders ≡ true
          → (outcome ≡ (
              if leb outbox_capacity (length queue)
              then dropped
              else queued m.next_message_id (length queue + 1)))
            × (c' ≡ c)
            × ((j : Text) → queue_of j m'.outbox ≡ appended wanted entry m.outbox j)
            × (m'.next_message_id ≡ fetch_add m.next_message_id 1))
      × (is_empty (trim nickname) ≡ false
          → is_empty senders ≡ false
          → let frame = encode_message_frame m.next_message_id ciphertext kind content_type in
            let offered = offers mpsc senders frame c in
            (outcome ≡ sent (record { message_id = m.next_message_id; peers = offered.0 }))
            × (c' ≡ offered.1)
            × (m'.outbox ≡ m.outbox)
            × (m'.next_message_id ≡ fetch_add m.next_message_id 1))

  -- Each operation on the outbox keeps every queue within 32 messages: a send to a name, the pruning,
  -- and a flush that no other operation interleaves with.
  pub operations-IsBounded :
      (now : ℕ) (nickname : Text) (ciphertext : List ℕ) (kind : MessageKind)
      (content_type : ContentType) (remote : ℕ) (c : Store) (m : NetworkManager)
      → IsBounded m.outbox
      → IsBounded
          (send_ciphertext_to_peer mpsc now nickname ciphertext kind content_type c m).2.outbox
        × IsBounded (prune_outbox now m).outbox
        × IsBounded (flush_outbox mpsc now nickname remote c m).2.outbox
  operations-IsBounded now nickname ciphertext kind content_type remote c m b = (
    send_ciphertext_to_peer-IsBounded now nickname ciphertext kind content_type c m b,
    prune_outbox-IsBounded now m b,
    flush_outbox-IsBounded now nickname remote c m b,
  )
