-- ===== src/Tox/Store.antt =====
-- The restart of the Tox transport: `ToxStore::load` of crates/meta-text-backend/src/tox_store.rs and
-- `restore_state` of crates/meta-text-backend/src/transport.rs. `to_lowercase` of the standard library
-- is the parameter `lower`; what the file system and serde_json answer is an argument.
pub mod Restored
pub mod Requests
pub mod Index
pub mod Numbers
pub mod Queues
pub mod RoundTrip
mod Tests
use meta_text.Prelude.{
  ℕ, zero, ◌+◌, ◌-◌, ◌*◌, ◌%◌, ◌^◌, Bool, true, false, List, [], ◌∷◌, ◌++◌, map, Option, none, some,
  length, leb, ltb, ◌==◌, if◌then◌else◌,
}
use meta_text.Prelude.Text.{Text}
use meta_text.Prelude.Assoc.{lookup, insert, number_key, text_key}
use meta_text.Hex.{Hex}
use meta_text.Tox.State.{
  QueuedMessage, Queue, ToxOutbox, ToxState, StoredMessage, PeerRequest, FriendEntry, store_version,
  pending_requests_capacity, tox_outbox_capacity, tox_outbox_ttl, queued_age, from_unix_ms,
}
use meta_text.Tox.Outbox.{queue_or_default}
use meta_text.Tox.Requests.{is_pending}

abbrev pub default_state : ToxState
default_state = record { version = store_version; next_message_id = 1; requests = []; outbox = [] }

pub data FileAnswer : Type 0 where
  not_found unreadable malformed : FileAnswer
  parsed : ToxState → FileAnswer

pub load : FileAnswer → ToxState
load not_found = default_state
load unreadable = default_state
load malformed = default_state
load (parsed state) = if state.version == store_version then state else default_state

pub record RestoredState : Type 0 where
  pub requests : List PeerRequest
  pub outbox : ToxOutbox
  pub next_message_id : ℕ
  pub requests_dropped : ℕ
  pub expired : ℕ
  pub undeliverable : ℕ

abbrev pub nothing_restored : RestoredState
nothing_restored = record {
  requests = [];
  outbox = [];
  next_message_id = 0;
  requests_dropped = 0;
  expired = 0;
  undeliverable = 0;
}

-- one round of the loop over the stored requests
pub restore_request : PeerRequest → RestoredState → RestoredState
restore_request stored restored =
    if is_pending stored.public_key restored.requests
    then restored
    else if leb pending_requests_capacity (length restored.requests)
    then record restored { requests_dropped = restored.requests_dropped + 1 }
    else record restored { requests = restored.requests ++ stored ∷ [] }

pub restore_requests : List PeerRequest → RestoredState → RestoredState
unfolding restore_request
restore_requests [] restored = restored
restore_requests (stored ∷ requests) restored =
    restore_requests requests (restore_request stored restored)

-- the table from keys in lower case to friend numbers, where a later entry replaces an earlier one
pub index_friends : (Text → Text) → List (ℕ × FriendEntry) → List (Text × ℕ) → List (Text × ℕ)
index_friends lower [] by_key = by_key
index_friends lower ((n, friend) ∷ friends) by_key =
    index_friends lower friends (insert (lower friend.public_key) n by_key)

-- `saturating_add(1)` on a u64
abbrev pub saturating_suc : ℕ → ℕ
saturating_suc n = if ltb (n + 1) (2 ^ 64) then n + 1 else 2 ^ 64 - 1

abbrev pub larger : ℕ → ℕ → ℕ
larger a b = if leb a b then b else a

pub highest_id : List StoredMessage → ℕ
highest_id [] = 0
highest_id (m ∷ ms) = larger m.message_id (highest_id ms)

-- a message whose friend and body are known
pub restore_known : ℕ → StoredMessage → ℕ → List ℕ → RestoredState → RestoredState
restore_known now stored n body restored =
    let queued_at = from_unix_ms stored.queued_at_unix_ms in
    let entry : QueuedMessage = record {
      message_id = stored.message_id;
      body = body;
      kind = stored.kind;
      queued_at = queued_at;
    } in
    let queue = queue_or_default (lookup n restored.outbox) in
    if leb tox_outbox_ttl (queued_age now queued_at)
    then record restored { expired = restored.expired + 1 }
    else if leb tox_outbox_capacity (length queue)
    then record restored {
      outbox = insert n queue restored.outbox;
      undeliverable = restored.undeliverable + 1;
    }
    else record restored { outbox = insert n (queue ++ entry ∷ []) restored.outbox }

-- `continue` with one more undeliverable message
abbrev pub undelivered : RestoredState → RestoredState
undelivered restored = record restored { undeliverable = restored.undeliverable + 1 }

module _ (hex : Hex) (lower : Text → Text) where
  -- one round of the loop over the stored messages
  pub restore_message : ℕ → List (Text × ℕ) → StoredMessage → RestoredState → RestoredState
  unfolding restore_known
  restore_message now by_key stored restored = elim (lookup (lower stored.public_key) by_key) [
    | none ↦ undelivered restored
    | some n ↦ elim (hex.decode stored.body) [
      | none ↦ undelivered restored
      | some body ↦ restore_known now stored n body restored
    ]
  ]

  pub restore_messages : ℕ → List (Text × ℕ) → List StoredMessage → RestoredState → RestoredState
  unfolding restore_message
  restore_messages now by_key [] restored = restored
  restore_messages now by_key (stored ∷ messages) restored =
      restore_messages now by_key messages (restore_message now by_key stored restored)

  pub restore_state : ℕ → ToxState → List (ℕ × FriendEntry) → RestoredState
  unfolding restore_requests restore_messages index_friends highest_id
  restore_state now state friends =
      let by_key = index_friends lower friends [] in
      let restored =
        restore_messages now by_key state.outbox
          (restore_requests state.requests nothing_restored) in
      let next =
        larger (larger state.next_message_id (saturating_suc (highest_id state.outbox))) 1 in
      record restored { next_message_id = next }
