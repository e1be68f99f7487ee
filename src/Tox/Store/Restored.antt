-- ===== src/Tox/Store/Restored.antt =====
-- What `restore_state` gives, whatever the file holds.
use mathlib.Core.Path.{subst}
use meta_text.Prelude.{
  ℕ, ◌+◌, ◌-◌, ◌^◌, ◌≤◌, ◌<◌, ◌≡◌, refl, sym, List, [], ◌∷◌, ◌++◌, Option, none, some, length,
  length-append, Bool-cases, inl, inr, leb, arith, All,
}
use meta_text.Prelude.Text.{Text}
use meta_text.Prelude.Assoc.{lookup, insert, number_key, text_key}
use meta_text.Prelude.Assoc.Distinct.{insert-Distinct}
use meta_text.Hex.{Hex}
use meta_text.Tox.State.{
  QueuedMessage, Queue, ToxOutbox, ToxState, StoredMessage, PeerRequest, FriendEntry,
  pending_requests_capacity, tox_outbox_capacity, tox_outbox_ttl, queued_age, from_unix_ms,
}
use meta_text.Tox.Outbox.Queues.{queue_of, queue_of-insert}
use meta_text.Tox.Outbox.Bounds.{IsWithin}
use meta_text.Tox.Requests.{is_pending}
use meta_text.Tox.Requests.Pending.{append-AllDistinct}
use meta_text.Tox.Requests.Invariant.{IsRequestList}
use meta_text.Tox.Store.{
  FileAnswer, load, RestoredState, restore_request, restore_requests, highest_id, restore_known,
  restore_message, restore_messages, restore_state, nothing_restored, index_friends, undelivered,
}

-- The two tables satisfy the invariants of the running transport.
abbrev pub IsSound : RestoredState → Type 0
IsSound restored = IsRequestList restored.requests × IsWithin tox_outbox_capacity restored.outbox

restore_request-IsSound :
    (stored : PeerRequest) (restored : RestoredState)
    → IsSound restored
    → IsSound (restore_request stored restored)
unfolding restore_request
restore_request-IsSound stored restored ((d, short), safe) =
    let old = restored.requests in
    elim (Bool-cases (is_pending stored.public_key old)) [
      | inl pending ↦
          let same : restore_request stored restored ≡ restored =
            rw (restore_request, pending) refl in
          subst IsSound (sym same) ((d, short), safe)
      | inr fresh ↦ elim (Bool-cases (leb pending_requests_capacity (length old))) [
        | inl full ↦
            let counted : RestoredState = record restored {
              requests_dropped = restored.requests_dropped + 1;
            } in
            let same : restore_request stored restored ≡ counted =
              rw (restore_request, fresh, full) refl in
            subst IsSound (sym same) ((d, short), safe)
        | inr free ↦
            let longer : RestoredState = record restored { requests = old ++ stored ∷ [] } in
            let same : restore_request stored restored ≡ longer =
              rw (restore_request, fresh, free) refl in
            let bounded : length (old ++ stored ∷ []) ≤ pending_requests_capacity =
              ground (arith, free, length-append old (stored ∷ [])) in
            subst IsSound (sym same) ((append-AllDistinct old stored fresh d, bounded), safe)
      ]
    ]

restore_requests-IsSound :
    (requests : List PeerRequest) (restored : RestoredState)
    → IsSound restored
    → IsSound (restore_requests requests restored)
unfolding restore_requests
restore_requests-IsSound [] restored sound = sound
restore_requests-IsSound (r ∷ rs) restored sound =
    restore_requests-IsSound rs (restore_request r restored)
      (restore_request-IsSound r restored sound)

insert-IsWithin :
    (n : ℕ) (q : Queue) (outbox : ToxOutbox)
    → length q ≤ tox_outbox_capacity
    → IsWithin tox_outbox_capacity outbox
    → IsWithin tox_outbox_capacity (insert n q outbox)
insert-IsWithin n q outbox short (d, all) =
    (insert-Distinct n q outbox d, λ j. ground (arith, queue_of-insert n j q outbox, short, all j))

restore_known-IsSound :
    (now : ℕ) (stored : StoredMessage) (n : ℕ) (body : List ℕ) (restored : RestoredState)
    → IsSound restored
    → IsSound (restore_known now stored n body restored)
unfolding restore_known
restore_known-IsSound now stored n body restored (listed, safe) =
    let queued_at = from_unix_ms stored.queued_at_unix_ms in
    let entry : QueuedMessage = record {
      message_id = stored.message_id;
      body = body;
      kind = stored.kind;
      queued_at = queued_at;
    } in
    let queue = queue_of n restored.outbox in
    elim (Bool-cases (leb tox_outbox_ttl (queued_age now queued_at))) [
      | inl old ↦
          let counted : RestoredState = record restored { expired = restored.expired + 1 } in
          let same : restore_known now stored n body restored ≡ counted =
            rw (restore_known, old) refl in
          subst IsSound (sym same) (listed, safe)
      | inr young ↦ elim (Bool-cases (leb tox_outbox_capacity (length queue))) [
        | inl full ↦
            let counted : RestoredState = record restored {
              outbox = insert n queue restored.outbox;
              undeliverable = restored.undeliverable + 1;
            } in
            let same : restore_known now stored n body restored ≡ counted =
              rw (restore_known, young, full) refl in
            subst IsSound (sym same)
              (listed, insert-IsWithin n queue restored.outbox (safe.1 n) safe)
        | inr free ↦
            let longer : RestoredState = record restored {
              outbox = insert n (queue ++ entry ∷ []) restored.outbox;
            } in
            let same : restore_known now stored n body restored ≡ longer =
              rw (restore_known, young, free) refl in
            let bounded : length (queue ++ entry ∷ []) ≤ tox_outbox_capacity =
              ground (arith, free, length-append queue (entry ∷ [])) in
            subst IsSound (sym same)
              (listed, insert-IsWithin n (queue ++ entry ∷ []) restored.outbox bounded safe)
      ]
    ]

highest_id-bounded :
    (bound : ℕ) (ms : List StoredMessage)
    → 0 < bound
    → All (λ m. m.message_id < bound) ms
    → highest_id ms < bound
unfolding highest_id
highest_id-bounded bound [] positive small = positive
highest_id-bounded bound (m ∷ ms) positive (first, small) =
    ground (arith, first, highest_id-bounded bound ms positive small)

highest_id-above :
    (bound : ℕ) (ms : List StoredMessage)
    → highest_id ms < bound
    → All (λ m. m.message_id < bound) ms
unfolding highest_id
highest_id-above bound [] above = tt
highest_id-above bound (m ∷ ms) above =
    (ground (arith, above), highest_id-above bound ms (ground (arith, above)))

-- An identifier that no stored message has, nor one that was given before.
abbrev pub IsFresh : ToxState → ℕ → Type 0
IsFresh state next =
    (1 ≤ next) × (state.next_message_id ≤ next) × All (λ m. m.message_id < next) state.outbox

module _ (hex : Hex) (lower : Text → Text) where
  restore_message-IsSound :
      (now : ℕ) (by_key : List (Text × ℕ)) (stored : StoredMessage) (restored : RestoredState)
      → (found : Option ℕ) (body : Option (List ℕ))
      → lookup (lower stored.public_key) by_key ≡ found
      → hex.decode stored.body ≡ body
      → IsSound restored
      → IsSound (restore_message hex lower now by_key stored restored)
  unfolding restore_message
  restore_message-IsSound now by_key stored restored none body e b sound =
      let same : restore_message hex lower now by_key stored restored ≡ undelivered restored =
        rw (restore_message, e) refl in
      subst IsSound (sym same) sound
  restore_message-IsSound now by_key stored restored (some n) none e b sound =
      let same : restore_message hex lower now by_key stored restored ≡ undelivered restored =
        rw (restore_message, e, b) refl in
      subst IsSound (sym same) sound
  restore_message-IsSound now by_key stored restored (some n) (some body) e b sound =
      let same : restore_message hex lower now by_key stored restored
          ≡ restore_known now stored n body restored =
        rw (restore_message, e, b) refl in
      subst IsSound (sym same) (restore_known-IsSound now stored n body restored sound)

  restore_messages-IsSound :
      (now : ℕ) (by_key : List (Text × ℕ)) (messages : List StoredMessage)
      (restored : RestoredState)
      → IsSound restored
      → IsSound (restore_messages hex lower now by_key messages restored)
  unfolding restore_messages
  restore_messages-IsSound now by_key [] restored sound = sound
  restore_messages-IsSound now by_key (m ∷ ms) restored sound =
      let first =
        restore_message-IsSound now by_key m restored (lookup (lower m.public_key) by_key)
          (hex.decode m.body) refl refl sound in
      restore_messages-IsSound now by_key ms (restore_message hex lower now by_key m restored) first

  -- Whatever the file holds, `restore_state` gives requests with distinct keys, at most 128, and one
  -- queue per friend number, of at most 32 payloads.
  pub restore_state-IsSound :
      (now : ℕ) (file : FileAnswer) (friends : List (ℕ × FriendEntry))
      → IsSound (restore_state hex lower now (load file) friends)
  unfolding restore_state lookup
  restore_state-IsSound now file friends =
      let state = load file in
      let by_key = index_friends lower friends [] in
      let empty-IsSound : IsSound nothing_restored = ((tt, omega arith), (tt, λ n. omega arith)) in
      restore_messages-IsSound now by_key state.outbox
        (restore_requests state.requests nothing_restored)
        (restore_requests-IsSound state.requests nothing_restored empty-IsSound)

  -- The next identifier is at least 1 and the stored one, and above that of every stored message, where
  -- those are below 2^64 - 1.
  pub restore_state-IsFresh :
      (now : ℕ) (state : ToxState) (friends : List (ℕ × FriendEntry))
      → All (λ m. m.message_id < 2 ^ 64 - 1) state.outbox
      → IsFresh state (restore_state hex lower now state friends).next_message_id
  unfolding restore_state
  restore_state-IsFresh now state friends small =
      let top = highest_id state.outbox in
      let bounded = highest_id-bounded (2 ^ 64 - 1) state.outbox (omega arith) small in
      let next = (restore_state hex lower now state friends).next_message_id in
      let above : top < next = ground (arith, bounded) in
      (ground arith, ground arith, highest_id-above next state.outbox above)
