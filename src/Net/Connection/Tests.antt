-- ===== src/Net/Connection/Tests.antt =====
-- The life of a connection in crates/meta-text-backend/src/network.rs on concrete instances.
use meta_text.Prelude.{◌+◌, ◌≡◌, refl, List, [], ◌∷◌, none, some, true, false, any}
use meta_text.Prelude.Text.{codes, to_ascii_lowercase, text_eq}
use meta_text.Prelude.Assoc.{lookup, number_key, text_key}
use meta_text.Prelude.Assoc.Distinct.{Distinct}
use meta_text.Hex.Digits.{digits}
use meta_text.Crypto.Plain.{plain}
use meta_text.Net.Peers.Queues.{queues}
use meta_text.Net.Peers.Examples.{alice, waiting_alice, one_queue}
use meta_text.Net.Dispatch.{Ambient, peer_greeted, keepalive_seen}
use meta_text.Net.Connection.{
  Arrival, frame, read_frames, started_at, disconnect, mark_resolved, pending_peers,
}
use meta_text.Net.Connection.Deadlines.{Verdict}
use meta_text.Net.Connection.Timely.{IsTimely, read_frames_deadlines}
use meta_text.Net.Connection.Redial.{
  IsPending, disconnect-IsPending, Later, fails, desires, ends, after_all, mark_resolved_late,
}

abbrev ambient : Ambient
ambient = record {
  now = 0;
  now_ms = 0;
  from_utf8_lossy = λ bytes. bytes;
  to_lowercase = to_ascii_lowercase;
  publishes = λ n. true;
}

abbrev arrivals : List Arrival
arrivals =
    record { at = 4; read = frame 1 (codes "carol") } ∷ record { at = 30; read = frame 8 [] } ∷ []

nameless : peer_greeted 9 waiting_alice.peers ≡ false
unfolding peer_greeted lookup
nameless = refl

silent : keepalive_seen 9 waiting_alice.peers ≡ false
unfolding keepalive_seen lookup
silent = refl

read_frames_deadlines_example :
    let start = started_at ambient digits queues plain 0 waiting_alice in
    let result = read_frames ambient digits queues plain 9 arrivals start one_queue waiting_alice in
    IsTimely ambient digits queues plain 9
      (0 + waiting_alice.handshake_timeout)
      0
      arrivals
      one_queue
      waiting_alice
      result
    × Verdict 9 result.3.peers result.0
read_frames_deadlines_example =
    read_frames_deadlines ambient digits queues plain 9 arrivals one_queue waiting_alice nameless
      silent

bob_is_desired :
    lookup (codes "bob:1") alice.desired_peers ≡ some (record { resolved = some 9; attempts = 0 })
unfolding lookup text_eq
bob_is_desired = refl

disconnect-IsPending_example :
    IsPending (codes "bob:1") (disconnect 9 alice).desired_peers
    × (lookup 9 (disconnect 9 alice).peers ≡ none)
disconnect-IsPending_example =
    disconnect-IsPending 9 (codes "bob:1") (record { resolved = some 9; attempts = 0 }) alice
      bob_is_desired refl

desired_once : Distinct alice.desired_peers
unfolding lookup text_eq
desired_once = (refl, (refl, tt))

-- carol's address is forgotten while other peers come and go
abbrev afterwards : List Later
afterwards = fails (codes "carol:1") ∷ desires (codes "dave:1") ∷ ends 8 ∷ []

mark_resolved_late_example :
    let late =
      after_all afterwards (mark_resolved (codes "carol:1") (some 9) (disconnect 9 alice)) in
    (lookup 9 late.peers ≡ none)
    × (any (text_eq (codes "carol:1")) (pending_peers late.desired_peers) ≡ false)
mark_resolved_late_example =
    mark_resolved_late 9 (codes "carol:1") alice afterwards desired_once (tt, (tt, (refl, tt)))
