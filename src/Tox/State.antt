-- ===== src/Tox/State.antt =====
-- The shared state of the Tox transport (`ToxTransport` and its bridge hold the same tables), and the
-- state that is published to the store. A time is in nanoseconds since the Unix epoch.
use meta_text.Prelude.{
  ℕ, ◌+◌, ◌-◌, ◌*◌, ◌/◌, ◌%◌, ◌^◌, Bool, List, [], ◌∷◌, ◌++◌, map, Option, some, leb, ltb,
  if◌then◌else◌,
}
use meta_text.Prelude.Text.{Text}
use meta_text.Prelude.Assoc.{lookup, number_key}
use meta_text.Hex.{Hex}
use meta_text.Net.Frame.{MessageKind}

abbrev pub pending_requests_capacity : ℕ
pending_requests_capacity = 128

abbrev pub tox_outbox_capacity : ℕ
tox_outbox_capacity = 32

-- 300 seconds
abbrev pub tox_outbox_ttl : ℕ
tox_outbox_ttl = 300_000_000_000

abbrev pub store_version : ℕ
store_version = 1

pub record PeerRequest : Type 0 where
  pub public_key : Text
  pub message : Text

pub record FriendEntry : Type 0 where
  pub public_key : Text
  pub name : Text
  pub connected : Bool

pub record QueuedMessage : Type 0 where
  pub message_id : ℕ
  pub body : List ℕ
  pub kind : MessageKind
  pub queued_at : ℕ

abbrev pub Queue : Type 0
Queue = List QueuedMessage

abbrev pub ToxOutbox : Type 0
ToxOutbox = List (ℕ × Queue)

-- `StoredMessage` of tox_store.rs
pub record StoredMessage : Type 0 where
  pub public_key : Text
  pub message_id : ℕ
  pub kind : MessageKind
  pub body : Text
  pub queued_at_unix_ms : ℕ

-- A `StoredRequest` has the fields of a `PeerRequest`.
pub record ToxState : Type 0 where
  pub version : ℕ
  pub next_message_id : ℕ
  pub requests : List PeerRequest
  pub outbox : List StoredMessage

-- `file` is the state that was published last.
pub record ToxTransport : Type 0 where
  pub friends : List (ℕ × FriendEntry)
  pub requests : List PeerRequest
  pub outbox : ToxOutbox
  pub next_message_id : ℕ
  pub expired : ℕ
  pub dropped_requests : ℕ
  pub desired : List Text
  pub file : Option ToxState

-- an `AtomicU64`
abbrev pub fetch_add : ℕ → ℕ → ℕ
fetch_add counter n = (counter + n) % 2 ^ 64

-- The clock may run backwards; the age is 0 then, as `-` gives it.
unfoldable pub queued_age : ℕ → ℕ → ℕ
queued_age now queued_at = now - queued_at

-- `u64::try_from(…).unwrap_or(u64::MAX)` of the milliseconds
unfoldable pub unix_ms : ℕ → ℕ
unix_ms time = let ms = time / 1_000_000 in if ltb ms (2 ^ 64) then ms else 2 ^ 64 - 1

unfoldable pub from_unix_ms : ℕ → ℕ
from_unix_ms millis = millis * 1_000_000

unfoldable pub insert_number : ℕ → List ℕ → List ℕ
insert_number n [] = n ∷ []
insert_number n (m ∷ ms) = let rest = insert_number n ms in if leb n m then n ∷ m ∷ ms else m ∷ rest

-- `sort_unstable` of the friend numbers
unfoldable pub sort_numbers : List ℕ → List ℕ
unfolding insert_number
sort_numbers [] = []
sort_numbers (n ∷ ns) = insert_number n (sort_numbers ns)

abbrev pub keys {ℓ} : {V : Type ℓ} → List (ℕ × V) → List ℕ
keys [] = []
keys ((k, v) ∷ m) = k ∷ keys m

module _ (hex : Hex) where
  unfoldable pub stored_message : Text → QueuedMessage → StoredMessage
  unfolding unix_ms
  stored_message public_key m = record {
    public_key = public_key;
    message_id = m.message_id;
    kind = m.kind;
    body = hex.encode m.body;
    queued_at_unix_ms = unix_ms m.queued_at;
  }

  -- one friend's queue; it is skipped where the friend is not in the table
  unfoldable pub stored_queue : Option FriendEntry → Option Queue → List StoredMessage
  stored_queue (some friend) (some queue) = map (stored_message friend.public_key) queue
  stored_queue _ _ = []

  unfoldable pub stored_queues : List (ℕ × FriendEntry) → ToxOutbox → List ℕ → List StoredMessage
  unfolding stored_queue
  stored_queues friends outbox [] = []
  stored_queues friends outbox (n ∷ ns) =
      stored_queue (lookup n friends) (lookup n outbox) ++ stored_queues friends outbox ns

  unfoldable pub snapshot_state : ToxTransport → ToxState
  unfolding stored_queues sort_numbers
  snapshot_state t = record {
    version = store_version;
    next_message_id = t.next_message_id;
    requests = t.requests;
    outbox = stored_queues t.friends t.outbox (sort_numbers (keys t.outbox));
  }

  -- `ToxStore::update`: the file is replaced as a whole, or not at all. The argument is the file
  -- system's answer.
  unfoldable pub persist : Bool → ToxTransport → ToxTransport
  persist published t = if published then record t { file = some (snapshot_state t) } else t
