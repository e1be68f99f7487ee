-- ===== src/Net/Connection.antt =====
-- The life of a connection, in crates/meta-text-backend/src/network.rs: its registration and our
-- greeting, the loop that reads its frames under two deadlines, its end, and the addresses that are
-- dialled again. The stream is the list of what reading it gives, with the time of each; the tasks of
-- the other connections do not run in between.
pub mod Deadlines
pub mod Timely
pub mod Redial
mod Tests
use meta_text.Prelude.{
  ℕ, ◌+◌, ◌-◌, ◌^◌, Bool, true, false, not, List, [], ◌∷◌, ◌++◌, Option, none, some, length, leb,
  ltb, ◌==◌, if◌then◌else◌, min,
}
use meta_text.Prelude.Text.{Text, is_empty, trim, as_bytes, codes}
use meta_text.Prelude.Assoc.{lookup, insert, remove, number_key, text_key}
use meta_text.Hex.{Hex}
use meta_text.Crypto.{Primitives}
use meta_text.Identity.{
  NetworkIdentity, EphemeralKey, ephemeral_from_secret, public_hex, ephemeral_public_hex,
}
use meta_text.Net.Frame.{encode_frame}
use meta_text.Net.Peers.{
  NetworkManager, Peer, Peers, DesiredPeer, DesiredPeers, Channels, frame_hello, frame_identity,
  frame_ephemeral, frame_keepalive, peer_queue_capacity, queue_to, announce_to,
}
use meta_text.Net.Dispatch.{
  Ambient, AppEvent, peer_connected, peer_disconnected, dispatch, peer_greeted, keepalive_seen,
}

-- What reading one frame gives.
pub data FrameRead : Type 0 where
  frame : ℕ → List ℕ → FrameRead
  closed failed : FrameRead

pub record Arrival : Type 0 where
  pub at : ℕ
  pub read : FrameRead

-- How the loop stands when the arrivals are used up; `waiting` has no deadline.
pub data Ended : Type 0 where
  connection_closed no_greeting no_traffic read_error waiting : Ended

pub record ReadLoop : Type 0 where
  pub greeting_deadline : Option ℕ
  pub last_received : ℕ
  pub armed_with_keepalive : Bool

pub hello_frame : NetworkManager → List ℕ
hello_frame m = encode_frame frame_hello (as_bytes m.nickname)

module _ (hex : Hex) where
  pub identity_frame : NetworkManager → List ℕ
  identity_frame m =
      encode_frame frame_identity
        (as_bytes (elim m.identity [ none ↦ [] | some own ↦ public_hex hex own ]))

  pub ephemeral_frame : ℕ → NetworkManager → Option (List ℕ)
  ephemeral_frame remote m = elim (lookup remote m.peers) [
    | none ↦ none
    | some peer ↦
        some (encode_frame frame_ephemeral (as_bytes (ephemeral_public_hex hex peer.ephemeral)))
  ]

-- `peer.nickname.is_some()`
is_named : Peer → Bool
is_named peer = elim peer.nickname [ none ↦ false | some name ↦ true ]

pub deadline : ℕ → ReadLoop → Option ℕ
deadline idle_timeout s = elim s.greeting_deadline [
  | some at ↦ some at
  | none ↦ if s.armed_with_keepalive then some (s.last_received + idle_timeout) else none
]

-- the reason when the deadline has passed
timed_out : ReadLoop → Ended
timed_out s = elim s.greeting_deadline [ some at ↦ no_greeting | none ↦ no_traffic ]

-- whether an arrival at `t` comes after the deadline
is_late : Option ℕ → ℕ → Bool
is_late none t = false
is_late (some at) t = ltb at t

-- the end of a loop to which nothing more arrives
ended : ℕ → ReadLoop → Ended
unfolding deadline timed_out
ended idle_timeout s = elim (deadline idle_timeout s) [ none ↦ waiting | some at ↦ timed_out s ]

-- the two conditions after a frame was dispatched
pub after_frame : ℕ → ℕ → ReadLoop → Peers → ReadLoop
after_frame at remote s peers = record {
  greeting_deadline = if peer_greeted remote peers then none else s.greeting_deadline;
  last_received = at;
  armed_with_keepalive = if s.armed_with_keepalive then true else keepalive_seen remote peers;
}

-- `values_mut()` with the reset of what resolved to `remote`
clear_resolved : ℕ → DesiredPeer → DesiredPeer
clear_resolved remote peer = elim peer.resolved [
  | none ↦ peer
  | some address ↦ if address == remote then record peer { resolved = none } else peer
]

pub clear_all : ℕ → DesiredPeers → DesiredPeers
unfolding clear_resolved
clear_all remote [] = []
clear_all remote ((address, peer) ∷ desired) =
    (address, clear_resolved remote peer) ∷ clear_all remote desired

-- what the loop does after its end
pub disconnect : ℕ → NetworkManager → NetworkManager
unfolding clear_all
disconnect remote m = record m {
  peers = remove remote m.peers;
  desired_peers = clear_all remote m.desired_peers;
}

pub reason : Ended → Text
reason connection_closed = codes "connection closed"
reason no_greeting = codes "no greeting within the deadline"
reason no_traffic = codes "no traffic within the idle timeout"
reason read_error = codes "read error"
reason waiting = codes "connection closed"

module _ (env : Ambient) (hex : Hex) (mpsc : Channels) (prims : Primitives) where
  open mpsc use {Store, channel}

  -- The rounds of `read_loop`, up to its end: the events and how it ended.
  pub read_frames :
      ℕ
      → List Arrival
      → ReadLoop
      → Store
      → NetworkManager
      → Ended × List AppEvent × Store × NetworkManager
  unfolding ended is_late after_frame deadline timed_out
  read_frames remote [] s c m = (ended m.idle_timeout s, [], c, m)
  read_frames remote (arrival ∷ arrivals) s c m =
      let late = is_late (deadline m.idle_timeout s) arrival.at in
      elim arrival.read [
        | closed ↦ (if late then timed_out s else connection_closed, [], c, m)
        | failed ↦ (if late then timed_out s else read_error, [], c, m)
        | frame kind payload ↦
            let now : Ambient = record env { now = arrival.at } in
            let (events, c', m') = dispatch now hex mpsc prims kind payload remote c m in
            let s' = after_frame arrival.at remote s m'.peers in
            let (end, later, c'', m'') = read_frames remote arrivals s' c' m' in
            if late then (timed_out s, [], c, m) else (end, events ++ later, c'', m'')
      ]

  -- The state of the loop of a connection that was registered at `now`.
  abbrev pub started_at : ℕ → NetworkManager → ReadLoop
  started_at now m = record {
    greeting_deadline = some (now + m.handshake_timeout);
    last_received = now;
    armed_with_keepalive = false;
  }

  -- The whole loop of a connection whose stream ends, with its clean-up.
  pub read_loop :
      ℕ → List Arrival → Store → NetworkManager → Ended × List AppEvent × Store × NetworkManager
  unfolding read_frames disconnect reason
  read_loop remote arrivals c m =
      let (end, events, c', m') = read_frames remote arrivals (started_at env.now m) c m in
      elim end [
        | waiting ↦ (waiting, events, c', m')
        | over ↦
            (over, events ++ peer_disconnected remote (reason over) ∷ [], c', disconnect remote m')
      ]

  pub announce : ℕ → Store → NetworkManager → Store × NetworkManager
  unfolding hello_frame identity_frame ephemeral_frame
  announce remote c m =
      let (greeted, c1, m1) = queue_to mpsc remote (hello_frame m) c m in
      let (identified, c2, m2) = queue_to mpsc remote (identity_frame hex m1) c1 m1 in
      elim (ephemeral_frame hex remote m2) [
        | none ↦ (c2, m2)
        | some ephemeral ↦ let (keyed, c3, m3) = queue_to mpsc remote ephemeral c2 m2 in (c3, m3)
      ]

  -- `random` is the secret of the ephemeral key
  pub register : List ℕ → ℕ → Store → NetworkManager → List AppEvent × Store × NetworkManager
  unfolding announce
  register random remote c m =
      let (sender, c1) = channel peer_queue_capacity c in
      let peer : Peer = record {
        sender = sender;
        nickname = none;
        identity = none;
        ephemeral = ephemeral_from_secret prims random;
        remote_ephemeral = none;
        keepalive_seen = false;
      } in
      let (c2, m2) = announce remote c1 (record m { peers = insert remote peer m.peers }) in
      (peer_connected remote none ∷ [], c2, m2)

  -- one round of `accept_loop`
  pub accept_connection :
      List ℕ → ℕ → Store → NetworkManager → List AppEvent × Store × NetworkManager
  unfolding register
  accept_connection random remote c m =
      if leb m.max_connections (length m.peers) then ([], c, m) else register random remote c m

  pub set_nickname : Text → Store → NetworkManager → Store × NetworkManager
  set_nickname nickname c m =
      let renamed : NetworkManager = record m { nickname = nickname } in
      announce_to mpsc (λ peer. true) (hello_frame renamed) c renamed

  pub set_identity : NetworkIdentity → Store → NetworkManager → Store × NetworkManager
  set_identity own c m =
      let identified : NetworkManager = record m { identity = some own } in
      announce_to mpsc (λ peer. true) (identity_frame hex identified) c identified

  pub send_keepalives : Store → NetworkManager → Store × NetworkManager
  unfolding is_named
  send_keepalives c m = announce_to mpsc is_named (encode_frame frame_keepalive []) c m

pub desire_peer : Text → NetworkManager → NetworkManager
desire_peer address m = elim (lookup address m.desired_peers) [
  | some peer ↦ m
  | none ↦
      let wanted : DesiredPeer = record { resolved = none; attempts = 0 } in
      let extended : NetworkManager = record m {
        desired_peers = insert address wanted m.desired_peers;
      } in
      if is_empty (trim address) then m else extended
]

-- `entry(address).or_default()`
abbrev desired_or_default : Option DesiredPeer → DesiredPeer
desired_or_default none = record { resolved = none; attempts = 0 }
desired_or_default (some peer) = peer

pub mark_resolved : Text → Option ℕ → NetworkManager → NetworkManager
mark_resolved address resolved m =
    let peer = desired_or_default (lookup address m.desired_peers) in
    let attempts : ℕ = elim resolved [ some remote ↦ 0 | none ↦ peer.attempts ] in
    let marked : DesiredPeer = record { resolved = resolved; attempts = attempts } in
    record m { desired_peers = insert address marked m.desired_peers }

pub note_failure : Text → NetworkManager → NetworkManager
note_failure address m = elim (lookup address m.desired_peers) [
  | none ↦ m
  | some peer ↦
      let attempts = min (peer.attempts + 1) (2 ^ 32 - 1) in
      record m {
        desired_peers = insert address (record peer { attempts = attempts }) m.desired_peers;
      }
]

-- the addresses that the supervisor dials
pub pending_peers : DesiredPeers → List Text
pending_peers [] = []
pending_peers ((address, peer) ∷ desired) =
    let rest = pending_peers desired in
    elim peer.resolved [ none ↦ address ∷ rest | some remote ↦ rest ]

pub shutdown : NetworkManager → NetworkManager
shutdown m = record m { peers = []; desired_peers = []; outbox = []; started = false }
