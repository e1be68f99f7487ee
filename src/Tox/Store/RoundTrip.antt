-- ===== src/Tox/Store/RoundTrip.antt =====
-- What a restart keeps of the state that was published.
use mathlib.Core.Path.{subst}
use meta_text.Prelude.{
  ℕ, ◌≤◌, ◌≡◌, refl, sym, ap, ◌∙◌, true, false, List, [], ◌∷◌, ◌++◌, Option, none, some, length,
  Bool-cases, inl, inr, ◌==◌, if◌then◌else◌, arith,
}
use meta_text.Prelude.Text.{Text}
use meta_text.Prelude.Assoc.{lookup, number_key, text_key}
use meta_text.Hex.{Hex, HexLaws}
use meta_text.Tox.State.{
  Queue, ToxOutbox, ToxTransport, FriendEntry, StoredMessage, stored_queue, stored_queues,
  snapshot_state, sort_numbers, keys, tox_outbox_capacity,
}
use meta_text.Tox.Outbox.{queue_or_default, prune_queue}
use meta_text.Tox.Outbox.Queues.{queue_of}
use meta_text.Tox.Outbox.Bounds.{IsWithin}
use meta_text.Tox.Requests.Invariant.{IsRequestList}
use meta_text.Tox.Store.{
  load, parsed, RestoredState, restore_message, restore_messages, restore_requests, restore_state,
  index_friends, nothing_restored,
}
use meta_text.Tox.Store.Requests.{restore_requests-id}
use meta_text.Tox.Store.Index.{UniqueKeys, lookup-index_friends}
use meta_text.Tox.Store.Numbers.{
  mem, AllNew, mem-sort_numbers, sort_numbers-AllNew, absent_key, keys-AllNew,
}
use meta_text.Tox.Store.Queues.{restored_queue, AreBytes, Extended, restore_queue-Extended}

-- what the queue of a friend is after the restart: nothing where the friend was not in the table
abbrev pub survives : ℕ → Option FriendEntry → Queue → Queue
survives now none q = []
survives now (some friend) q = restored_queue now q

restore_messages-append :
    (hex : Hex) (lower : Text → Text) (now : ℕ) (by_key : List (Text × ℕ))
    (a b : List StoredMessage)
    → (restored : RestoredState)
    → restore_messages hex lower now by_key (a ++ b) restored
      ≡ restore_messages hex lower now by_key b (restore_messages hex lower now by_key a restored)
unfolding restore_messages
restore_messages-append hex lower now by_key [] b restored = refl
restore_messages-append hex lower now by_key (m ∷ a) b restored =
    restore_messages-append hex lower now by_key a b
      (restore_message hex lower now by_key m restored)

module _ (hex : Hex) (laws : HexLaws hex) (lower : Text → Text) (now : ℕ)
    (friends : List (ℕ × FriendEntry)) (unique : UniqueKeys lower friends) where
  abbrev by_key : List (Text × ℕ)
  by_key = index_friends lower friends []

  abbrev after : List StoredMessage → RestoredState → RestoredState
  after messages restored = restore_messages hex lower now by_key messages restored

  friend_queue-Extended :
      (n : ℕ) (friend : Option FriendEntry) (found : Option Queue) (restored : RestoredState)
      → lookup n friends ≡ friend
      → AreBytes (queue_or_default found)
      → length (queue_or_default found) ≤ tox_outbox_capacity
      → queue_of n restored.outbox ≡ []
      → Extended n
          (survives now friend (queue_or_default found))
          restored
          (after (stored_queue hex friend found) restored)
  unfolding stored_queue restore_messages
  friend_queue-Extended n none none restored e bytes short empty =
      (λ j. ground (arith, empty), refl, refl)
  friend_queue-Extended n none (some q) restored e bytes short empty =
      (λ j. ground (arith, empty), refl, refl)
  friend_queue-Extended n (some friend) none restored e bytes short empty =
      restore_queue-Extended hex laws lower now n [] friend.public_key by_key restored
        (lookup-index_friends lower n friend friends [] unique e) tt (ground (arith, empty))
  friend_queue-Extended n (some friend) (some q) restored e bytes short empty =
      restore_queue-Extended hex laws lower now n q friend.public_key by_key restored
        (lookup-index_friends lower n friend friends [] unique e) bytes
        (ground (arith, empty, short))

  module _ (outbox : ToxOutbox) (bytes : (n : ℕ) → AreBytes (queue_of n outbox))
      (within : IsWithin tox_outbox_capacity outbox) where
    abbrev Survived : List ℕ → RestoredState → RestoredState → Type 0
    Survived ns restored restored' =
        ((j : ℕ)
          → queue_of j restored'.outbox ≡ (
              if mem j ns
              then survives now (lookup j friends) (queue_of j outbox)
              else queue_of j restored.outbox))
        × (restored'.undeliverable ≡ restored.undeliverable)
        × (restored'.requests ≡ restored.requests)

    -- the queue of friend n was empty and is what survives of it; the others are as they were
    abbrev Replaced : ℕ → RestoredState → RestoredState → Type 0
    Replaced n restored first =
        (j : ℕ)
        → queue_of j first.outbox ≡ (
            if n == j
            then queue_of n restored.outbox ++ survives now (lookup n friends) (queue_of n outbox)
            else queue_of j restored.outbox)

    other_queue :
        (n j : ℕ) (ns : List ℕ) (restored first : RestoredState)
        → mem n ns ≡ false
        → mem j ns ≡ true
        → ((i : ℕ) → mem i (n ∷ ns) ≡ true → queue_of i restored.outbox ≡ [])
        → Replaced n restored first
        → queue_of j first.outbox ≡ []
    other_queue n j ns restored first e m empty queues = elim (Bool-cases (n == j)) [
      | inl same ↦
          let equal : n ≡ j = ground (arith, same) in ground (arith, ap (λ i. mem i ns) equal, e, m)
      | inr other ↦ queues j ∙ rw (other) (empty j (ground (arith, other, m)))
    ]

    joined :
        (n j : ℕ) (ns : List ℕ) (restored first : RestoredState)
        → mem n ns ≡ false
        → queue_of n restored.outbox ≡ []
        → Replaced n restored first
        → (if mem j ns
            then survives now (lookup j friends) (queue_of j outbox)
            else queue_of j first.outbox)
          ≡ (if mem j (n ∷ ns)
              then survives now (lookup j friends) (queue_of j outbox)
              else queue_of j restored.outbox)
    joined n j ns restored first e here queues = elim (Bool-cases (n == j)) [
      | inl same ↦
          let equal : n ≡ j = ground (arith, same) in
          let unseen : mem j ns ≡ false = ap (λ i. mem i ns) (sym equal) ∙ e in
          let whole : queue_of j first.outbox
              ≡ survives now (lookup n friends) (queue_of n outbox) =
            queues j ∙ rw (same, here) refl in
          rw (same, unseen)
            (whole ∙ ap (λ i. survives now (lookup i friends) (queue_of i outbox)) equal)
      | inr other ↦ ground (arith, other, queues j)
    ]

    queues-Survived :
        (ns : List ℕ) (restored : RestoredState)
        → AllNew ns
        → ((n : ℕ) → mem n ns ≡ true → queue_of n restored.outbox ≡ [])
        → Survived ns restored (after (stored_queues hex friends outbox ns) restored)
    unfolding stored_queues restore_messages
    queues-Survived [] restored d empty = (λ j. refl, refl, refl)
    queues-Survived (n ∷ ns) restored (e, d) empty =
        let first = after (stored_queue hex (lookup n friends) (lookup n outbox)) restored in
        let here : queue_of n restored.outbox ≡ [] = empty n (ground arith) in
        let (queues, undeliverable, requests) =
          friend_queue-Extended n (lookup n friends) (lookup n outbox) restored refl (bytes n)
            (within.1 n) here in
        let (queues', undeliverable', requests') =
          queues-Survived ns first d (λ j m. other_queue n j ns restored first e m empty queues) in
        subst (Survived (n ∷ ns) restored)
          (sym (
            restore_messages-append hex lower now by_key
              (stored_queue hex (lookup n friends) (lookup n outbox))
              (stored_queues hex friends outbox ns) restored))
          (
            λ j. queues' j ∙ joined n j ns restored first e here queues,
            undeliverable' ∙ undeliverable,
            requests' ∙ requests,
          )

survives_nil :
    (now : ℕ) (friend : Option FriendEntry) (q : Queue) → q ≡ [] → survives now friend q ≡ []
unfolding prune_queue
survives_nil now none q e = refl
survives_nil now (some friend) q e = ap (restored_queue now) e

-- A queue that is not listed is empty.
unlisted :
    (now j : ℕ) (friends : List (ℕ × FriendEntry)) (outbox : ToxOutbox) (other : Queue)
    → other ≡ []
    → (if mem j (sort_numbers (keys outbox))
        then survives now (lookup j friends) (queue_of j outbox)
        else other)
      ≡ survives now (lookup j friends) (queue_of j outbox)
unlisted now j friends outbox other empty = elim (Bool-cases (mem j (keys outbox))) [
  | inl listed ↦ rw (mem-sort_numbers j (keys outbox), listed) refl
  | inr absent ↦
      rw (mem-sort_numbers j (keys outbox), absent)
        (empty
          ∙ sym (
              survives_nil now (lookup j friends) (queue_of j outbox) (absent_key j outbox absent)))
]

-- the tables after the restart, beside those that were published
abbrev pub Survives : (lower : Text → Text) → ℕ → ToxTransport → RestoredState → Type 0
Survives lower now t restored =
    (restored.requests ≡ t.requests)
    × (restored.undeliverable ≡ 0)
    × ((j : ℕ)
        → queue_of j restored.outbox ≡ survives now (lookup j t.friends) (queue_of j t.outbox))

-- What is published of a running transport, read by another run with the same friends, no two of which
-- have the same key in lower case: the pending requests are the same, no payload counts as undeliverable, and
-- for each friend in the table the queue is the one that was published, in its order, with the times cut
-- to milliseconds and without the payloads that are 300 seconds old by then; a queue without a friend is
-- lost. The lists are supposed to be within their bounds, the payloads to be bytes.
pub restore_state-snapshot_state :
    (hex : Hex) (laws : HexLaws hex) (lower : Text → Text) (now : ℕ) (t : ToxTransport)
    → UniqueKeys lower t.friends
    → ((n : ℕ) → AreBytes (queue_of n t.outbox))
    → IsWithin tox_outbox_capacity t.outbox
    → IsRequestList t.requests
    → Survives lower now t
        (restore_state hex lower now (load (parsed (snapshot_state hex t))) t.friends)
unfolding restore_state snapshot_state load lookup
restore_state-snapshot_state hex laws lower now t unique bytes within (d, short) =
    let ns = sort_numbers (keys t.outbox) in
    let first = restore_requests t.requests nothing_restored in
    let same = restore_requests-id t.requests nothing_restored d short in
    let (queues, undeliverable, requests) =
      queues-Survived hex laws lower now t.friends unique t.outbox bytes within ns first
        (sort_numbers-AllNew (keys t.outbox) (keys-AllNew t.outbox within.0))
        (λ n m. ap (λ r. queue_of n r.outbox) same) in
    (
      requests ∙ ap (λ r. r.requests) same,
      undeliverable ∙ ap (λ r. r.undeliverable) same,
      λ j.
          queues j
          ∙ unlisted now j t.friends t.outbox (queue_of j first.outbox)
              (ap (λ r. queue_of j r.outbox) same),
    )
