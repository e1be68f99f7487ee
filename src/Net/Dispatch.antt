-- ===== src/Net/Dispatch.antt =====
-- The frames that a peer sends, in crates/meta-text-backend/src/network.rs: `Shared::dispatch` and the
-- handlers it calls. `String::from_utf8_lossy` and what `PinStore::observe` takes from outside are
-- parameters. The events sent to the core are returned, oldest first; a lost event is not modelled.
pub mod Registry
pub mod Steps
pub mod Greeting
mod Tests
use meta_text.Prelude.{
  ℕ, Bool, true, false, not, List, [], ◌∷◌, ◌++◌, Option, none, some, ok, err, drop, ◌==◌, ◌||◌,
  if◌then◌else◌,
}
use meta_text.Prelude.Bytes.{to_be_bytes}
use meta_text.Prelude.Text.{Text, is_empty, trim}
use meta_text.Prelude.Assoc.{lookup, insert, number_key}
use meta_text.Hex.{Hex}
use meta_text.Crypto.{Primitives}
use meta_text.Trust.{PinStore, observe, public_key_from_hex, fetch_add}
use meta_text.Ipc.Validation.{peer_label}
use meta_text.Net.Frame.{
  MessageKind, ContentType, encode_frame, message_attributes_of, decode_message_id, message_id_len,
  frame_message, frame_action, frame_binary,
}
use meta_text.Net.Peers.{
  NetworkManager, Peer, Peers, Channels, frame_hello, frame_ack, frame_identity, frame_ephemeral,
  frame_keepalive, queue_to,
}
use meta_text.Net.Sending.{flush_outbox}
use meta_text.Net.Keys.{decrypt_from}

pub data AppEvent : Type 0 where
  -- the address, and the nickname where there is one
  peer_connected : ℕ → Option Text → AppEvent
  peer_disconnected : ℕ → Text → AppEvent
  -- the name, the address, the payload, its kind and its content type
  message_received : Text → ℕ → List ℕ → MessageKind → ContentType → AppEvent
  message_delivered : Text → ℕ → ℕ → AppEvent

-- What the handlers use of the rest of the program: the clock, the lossy decoding, and the arguments
-- of the pin store.
pub record Ambient : Type 0 where
  pub now : ℕ
  pub now_ms : ℕ
  pub from_utf8_lossy : List ℕ → Text
  pub to_lowercase : Text → Text
  pub publishes : ℕ → Bool

-- `get_mut(&remote)` and an assignment: nothing happens where the peer is gone
unfoldable pub update_peer : ℕ → (Peer → Peer) → Peers → Peers
update_peer remote change peers = elim (lookup remote peers) [
  | none ↦ peers
  | some peer ↦ insert remote (change peer) peers
]

pub nickname_of : ℕ → Peers → Text
nickname_of remote peers = elim (lookup remote peers) [
  | none ↦ []
  | some peer ↦ elim peer.nickname [ none ↦ [] | some name ↦ name ]
]

pub peer_identity : ℕ → Peers → Option Text
peer_identity remote peers = elim (lookup remote peers) [ none ↦ none | some peer ↦ peer.identity ]

unfoldable pub peer_greeted : ℕ → Peers → Bool
peer_greeted remote peers = elim (lookup remote peers) [
  | none ↦ false
  | some peer ↦ elim peer.nickname [ none ↦ false | some name ↦ true ]
]

unfoldable pub keepalive_seen : ℕ → Peers → Bool
keepalive_seen remote peers = elim (lookup remote peers) [
  | none ↦ false
  | some peer ↦ peer.keepalive_seen
]

pub with_nickname : Text → Peer → Peer
with_nickname nickname peer = record peer { nickname = some nickname }

pub with_identity : Text → Peer → Peer
with_identity identity peer = record peer {
  identity = if is_empty identity then none else some identity;
}

-- only the first usable announcement of a connection is taken
pub with_ephemeral : Option Text → Peer → Peer
with_ephemeral parsed peer = elim peer.remote_ephemeral [
  | none ↦ record peer { remote_ephemeral = parsed }
  | some first ↦ peer
]

pub with_keepalive : Peer → Peer
with_keepalive peer = record peer { keepalive_seen = true }

module _ (env : Ambient) (hex : Hex) where
  pub pin_identity : Text → Text → NetworkManager → NetworkManager
  pin_identity nickname public_key m = record m {
    pins = (observe hex env.to_lowercase env.publishes env.now_ms nickname public_key m.pins).1;
  }

  pub accept_identity : ℕ → List ℕ → NetworkManager → NetworkManager
  unfolding with_identity pin_identity nickname_of
  accept_identity remote payload m =
      let identity = trim (env.from_utf8_lossy payload) in
      let kept : NetworkManager = record m {
        peers = update_peer remote (with_identity identity) m.peers;
      } in
      let nickname = nickname_of remote kept.peers in
      if is_empty identity || is_empty nickname then kept else pin_identity nickname identity kept

  -- `public_key_from_hex(&announced).map(hex::encode_upper)`
  pub ephemeral_of : List ℕ → Option Text
  ephemeral_of payload = elim (public_key_from_hex hex (trim (env.from_utf8_lossy payload))) [
    | none ↦ none
    | some bytes ↦ some (hex.encode_upper bytes)
  ]

  pub accept_ephemeral : ℕ → List ℕ → NetworkManager → NetworkManager
  unfolding with_ephemeral ephemeral_of
  accept_ephemeral remote payload m = record m {
    peers = update_peer remote (with_ephemeral (ephemeral_of payload)) m.peers;
  }

  pub accept_keepalive : ℕ → NetworkManager → NetworkManager
  unfolding with_keepalive
  accept_keepalive remote m = record m { peers = update_peer remote with_keepalive m.peers }

  -- the identity that came before the name is pinned now
  pub pin_announced : ℕ → Text → NetworkManager → NetworkManager
  unfolding peer_identity pin_identity
  pin_announced remote nickname m = elim (peer_identity remote m.peers) [
    | none ↦ m
    | some identity ↦ pin_identity nickname identity m
  ]

  module _ (mpsc : Channels) where
    open mpsc use {Store}

    pub accept_hello : ℕ → List ℕ → Store → NetworkManager → List AppEvent × Store × NetworkManager
    unfolding pin_announced with_nickname
    accept_hello remote payload c m = elim (peer_label (env.from_utf8_lossy payload)) [
      | none ↦ ([], c, record m { greetings_refused = fetch_add m.greetings_refused 1 })
      | some nickname ↦
          let named : NetworkManager = record m {
            peers = update_peer remote (with_nickname nickname) m.peers;
          } in
          let pinned = pin_announced remote nickname named in
          let (flushed, c', m') = flush_outbox mpsc env.now nickname remote c pinned in
          (peer_connected remote (some nickname) ∷ [], c', m')
    ]

    pub accept_ack : ℕ → List ℕ → NetworkManager → List AppEvent
    unfolding nickname_of
    accept_ack remote payload m = elim (decode_message_id payload) [
      | none ↦ []
      | some message_id ↦ message_delivered (nickname_of remote m.peers) remote message_id ∷ []
    ]

    module _ (prims : Primitives) where
      -- the event, then the acknowledgement
      pub accept_message :
          ℕ → ℕ → List ℕ → Store → NetworkManager → List AppEvent × Store × NetworkManager
      unfolding nickname_of
      accept_message frame remote payload c m = elim (message_attributes_of frame) [
        | none ↦ ([], c, m)
        | some (kind, content_type) ↦ elim (decode_message_id payload) [
          | none ↦ ([], c, m)
          | some message_id ↦ elim (decrypt_from hex prims remote (drop message_id_len payload) m) [
            | err e ↦ ([], c, m)
            | ok plaintext ↦
                let ack = encode_frame frame_ack (to_be_bytes message_id_len message_id) in
                let (acknowledged, c', m') = queue_to mpsc remote ack c m in
                let nickname = nickname_of remote m.peers in
                (message_received nickname remote plaintext kind content_type ∷ [], c', m')
          ]
        ]
      ]

      pub dispatch :
          ℕ → List ℕ → ℕ → Store → NetworkManager → List AppEvent × Store × NetworkManager
      unfolding accept_hello accept_identity accept_ephemeral accept_message accept_ack
          accept_keepalive
      dispatch kind payload remote c m =
          if kind == frame_hello
          then accept_hello remote payload c m
          else if kind == frame_identity
          then ([], c, accept_identity remote payload m)
          else if kind == frame_ephemeral
          then ([], c, accept_ephemeral remote payload m)
          else if (kind == frame_message || kind == frame_action || kind == frame_binary)
          then accept_message kind remote payload c m
          else if kind == frame_ack
          then (accept_ack remote payload m, c, m)
          else if kind == frame_keepalive
          then ([], c, accept_keepalive remote m)
          else ([], c, m)
