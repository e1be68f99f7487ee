-- ===== src/Net/Peers/Examples.antt =====
-- Two instances that are connected to each other, for concrete runs.
use meta_text.Prelude.{ℕ, true, false, List, [], ◌∷◌, none, some}
use meta_text.Prelude.Text.{Text, codes}
use meta_text.Hex.Digits.{digits}
use meta_text.Crypto.{CryptoManager}
use meta_text.Crypto.Plain.{plain, repeated}
use meta_text.Identity.{from_secret, ephemeral_from_secret, public_hex, ephemeral_public_hex}
use meta_text.Trust.{PinStore}
use meta_text.Net.Peers.{NetworkManager, Peer}
use meta_text.Net.Peers.Queues.{Queued}

abbrev pub session : CryptoManager
session = record { enabled = true; algorithm = codes "chacha20"; key = repeated 32 5 }

abbrev pub no_pins : PinStore
no_pins = record {
  has_path = false;
  pins = [];
  changed = 0;
  refused = 0;
  file = none;
  attempts = 0;
}

-- a connection that has carried the whole greeting of the secrets `other` and `ephemeral`
abbrev pub greeted_peer : ℕ → Text → List ℕ → List ℕ → List ℕ → Peer
greeted_peer sender name own_ephemeral other ephemeral = record {
  sender = sender;
  nickname = some name;
  identity = some (public_hex digits (from_secret plain other));
  ephemeral = ephemeral_from_secret plain own_ephemeral;
  remote_ephemeral = some (ephemeral_public_hex digits (ephemeral_from_secret plain ephemeral));
  keepalive_seen = false;
}

-- a connection on which nothing has arrived
abbrev pub new_peer : ℕ → Peer
new_peer sender = record {
  sender = sender;
  nickname = none;
  identity = none;
  ephemeral = ephemeral_from_secret plain (3 ∷ []);
  remote_ephemeral = none;
  keepalive_seen = false;
}

abbrev pub instance_of : Text → List ℕ → List (ℕ × Peer) → NetworkManager
instance_of name secret peers = record {
  crypto = session;
  nickname = name;
  identity = some (from_secret plain secret);
  pins = no_pins;
  peers = peers;
  desired_peers =
      (codes "bob:1", record { resolved = some 9; attempts = 0 })
      ∷ (codes "carol:1", record { resolved = none; attempts = 2 })
      ∷ [];
  outbox = [];
  outbox_expired = 0;
  max_connections = 8;
  handshake_timeout = 10;
  idle_timeout = 60;
  frames_dropped = 0;
  greetings_refused = 0;
  next_message_id = 41;
  started = true;
}

abbrev pub to_bob : Peer
to_bob = greeted_peer 0 (codes "Bob") (3 ∷ []) (2 ∷ []) (4 ∷ [])

abbrev pub to_alice : Peer
to_alice = greeted_peer 0 (codes "alice") (4 ∷ []) (1 ∷ []) (3 ∷ [])

abbrev pub alice : NetworkManager
alice = instance_of (codes "alice") (1 ∷ []) ((9, to_bob) ∷ [])

abbrev pub bob : NetworkManager
bob = instance_of (codes "Bob") (2 ∷ []) ((4, to_alice) ∷ [])

-- an instance whose connection 9 has said nothing
abbrev pub waiting_alice : NetworkManager
waiting_alice = instance_of (codes "alice") (1 ∷ []) ((9, new_peer 0) ∷ [])

-- one queue, with room for two frames
abbrev pub one_queue : Queued
one_queue = (0, (2, [])) ∷ []
