-- ===== src/Net/Peers.antt =====
-- The registry of the TCP transport in crates/meta-text-backend/src/network.rs (`Shared` and
-- `NetworkManager` hold the same tables): its peers, the outbox and the counters, and how a frame gets
-- into the queue of a connection. A socket address is a number; a time is in nanoseconds. The bounded
-- channels of tokio are a parameter that keeps a state; `sender` is the handle of one of them.
pub mod Queues
pub mod Offers
pub mod Examples
use meta_text.Prelude.{
  ℕ, ◌+◌, ◌%◌, ◌^◌, Bool, true, false, not, ◌&&◌, List, [], ◌∷◌, ◌++◌, Option, none, some, length,
  ltb, ◌==◌, if◌then◌else◌,
}
use meta_text.Prelude.Text.{Text, to_ascii_lowercase, text_eq}
use meta_text.Prelude.Assoc.{lookup, number_key}
use meta_text.Crypto.{CryptoManager}
use meta_text.Identity.{NetworkIdentity, EphemeralKey}
use meta_text.Trust.{PinStore, fetch_add}
use meta_text.Net.Frame.{MessageKind, ContentType, encode_message_frame}

abbrev pub frame_hello : ℕ
frame_hello = 1

abbrev pub frame_ack : ℕ
frame_ack = 3

abbrev pub frame_identity : ℕ
frame_identity = 6

abbrev pub frame_ephemeral : ℕ
frame_ephemeral = 7

abbrev pub frame_keepalive : ℕ
frame_keepalive = 8

abbrev pub peer_queue_capacity : ℕ
peer_queue_capacity = 256

abbrev pub outbox_capacity : ℕ
outbox_capacity = 32

-- 300 seconds
abbrev pub outbox_ttl : ℕ
outbox_ttl = 300_000_000_000

pub record OutboxEntry : Type 0 where
  pub message_id : ℕ
  pub ciphertext : List ℕ
  pub kind : MessageKind
  pub content_type : ContentType
  pub queued_at : ℕ

pub record DeliveryReceipt : Type 0 where
  pub message_id : ℕ
  pub peers : ℕ

pub data SendOutcome : Type 0 where
  sent : DeliveryReceipt → SendOutcome
  -- the identifier, and the position from one
  queued : ℕ → ℕ → SendOutcome
  dropped : SendOutcome

pub record DesiredPeer : Type 0 where
  pub resolved : Option ℕ
  pub attempts : ℕ

pub record Peer : Type 0 where
  pub sender : ℕ
  pub nickname : Option Text
  pub identity : Option Text
  pub ephemeral : EphemeralKey
  pub remote_ephemeral : Option Text
  pub keepalive_seen : Bool

abbrev pub Peers : Type 0
Peers = List (ℕ × Peer)

abbrev pub Outbox : Type 0
Outbox = List (Text × List OutboxEntry)

abbrev pub DesiredPeers : Type 0
DesiredPeers = List (Text × DesiredPeer)

pub record NetworkManager : Type 0 where
  pub crypto : CryptoManager
  pub nickname : Text
  pub identity : Option NetworkIdentity
  pub pins : PinStore
  pub peers : Peers
  pub desired_peers : DesiredPeers
  pub outbox : Outbox
  pub outbox_expired : ℕ
  pub max_connections : ℕ
  pub handshake_timeout : ℕ
  pub idle_timeout : ℕ
  pub frames_dropped : ℕ
  pub greetings_refused : ℕ
  pub next_message_id : ℕ
  pub started : Bool

-- the answer of `try_send`
pub data TrySend : Type 0 where
  accepted full closed : TrySend

pub record Channels : Type 1 where
  pub Store : Type 0
  pub try_send : ℕ → List ℕ → Store → TrySend × Store
  -- `mpsc::channel(capacity)`
  pub channel : ℕ → Store → ℕ × Store

-- `name.to_ascii_lowercase() == wanted` for the name that the peer announced, if it did
unfoldable pub answers_to : Text → Peer → Bool
answers_to wanted peer = elim peer.nickname [
  | none ↦ false
  | some name ↦ text_eq (to_ascii_lowercase name) wanted
]

-- the handles of the peers that `keep` selects
unfoldable pub peer_senders : (Peer → Bool) → Peers → List ℕ
peer_senders keep [] = []
peer_senders keep ((remote, peer) ∷ peers) =
    let rest = peer_senders keep peers in if keep peer then peer.sender ∷ rest else rest

module _ (mpsc : Channels) where
  open mpsc use {Store, try_send}

  -- the counter of shed frames, after an answer
  shed : TrySend → ℕ → ℕ
  shed accepted count = count
  shed full count = fetch_add count 1
  shed closed count = count

  is_accepted : TrySend → Bool
  is_accepted accepted = true
  is_accepted full = false
  is_accepted closed = false

  unfoldable pub queue_frame : ℕ → List ℕ → Store → ℕ → Bool × Store × ℕ
  unfolding shed is_accepted
  queue_frame sender frame c count =
      let (answer, c') = try_send sender frame c in (is_accepted answer, c', shed answer count)

  unfoldable pub queue_to : ℕ → List ℕ → Store → NetworkManager → Bool × Store × NetworkManager
  unfolding queue_frame
  queue_to remote frame c m = elim (lookup remote m.peers) [
    | none ↦ (false, c, m)
    | some peer ↦
        let (delivered, c', count) = queue_frame peer.sender frame c m.frames_dropped in
        (delivered, c', record m { frames_dropped = count })
  ]

  -- The loop over the handles: how many queues took the frame.
  unfoldable pub queue_each : List ℕ → List ℕ → Store → ℕ → ℕ × Store × ℕ
  unfolding queue_frame
  queue_each [] frame c count = (0, c, count)
  queue_each (sender ∷ senders) frame c count =
      let (delivered, c', count') = queue_frame sender frame c count in
      let (peers, c'', count'') = queue_each senders frame c' count' in
      (if delivered then peers + 1 else peers, c'', count'')

  unfoldable pub dispatch_to :
      List ℕ
      → List ℕ
      → MessageKind
      → ContentType
      → Store
      → NetworkManager
      → DeliveryReceipt × Store × NetworkManager
  unfolding queue_each
  dispatch_to senders ciphertext kind content_type c m =
      let message_id = m.next_message_id in
      let frame = encode_message_frame message_id ciphertext kind content_type in
      let (peers, c', count) = queue_each senders frame c m.frames_dropped in
      (
        record { message_id = message_id; peers = peers },
        c',
        record m { next_message_id = fetch_add message_id 1; frames_dropped = count },
      )

  unfoldable pub broadcast_ciphertext :
      List ℕ
      → MessageKind
      → ContentType
      → Store
      → NetworkManager
      → DeliveryReceipt × Store × NetworkManager
  unfolding peer_senders dispatch_to
  broadcast_ciphertext ciphertext kind content_type c m =
      dispatch_to (peer_senders (λ peer. true) m.peers) ciphertext kind content_type c m

  -- a frame for every connected peer that `keep` selects, without a receipt
  unfoldable pub announce_to :
      (Peer → Bool) → List ℕ → Store → NetworkManager → Store × NetworkManager
  unfolding queue_each peer_senders
  announce_to keep frame c m =
      let (peers, c', count) = queue_each (peer_senders keep m.peers) frame c m.frames_dropped in
      (c', record m { frames_dropped = count })
