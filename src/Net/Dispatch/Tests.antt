-- ===== src/Net/Dispatch/Tests.antt =====
-- The frames of a peer in crates/meta-text-backend/src/network.rs on concrete instances.
use meta_text.Prelude.{ℕ, ◌≡◌, refl, List, [], ◌∷◌, some, true, false, arith}
use meta_text.Prelude.Text.{codes, is_empty, trim, is_whitespace, to_ascii_lowercase}
use meta_text.Prelude.Assoc.{lookup, number_key}
use meta_text.Hex.Digits.{digits}
use meta_text.Crypto.Plain.{plain}
use meta_text.Trust.{observe}
use meta_text.Prelude.Text.{is_control}
use meta_text.Ipc.Protocol.{contains_forbidden_control}
use meta_text.Ipc.Validation.{peer_label, nickname, accepted}
use meta_text.Net.Peers.Queues.{queues}
use meta_text.Net.Peers.Examples.{alice, waiting_alice, new_peer, one_queue}
use meta_text.Net.Dispatch.{Ambient, accept_hello, accept_identity}
use meta_text.Net.Dispatch.Registry.{Continues, HasLabels}
use meta_text.Net.Dispatch.Steps.{dispatch_all, dispatch_all-Continues, dispatch_all-HasLabels}
use meta_text.Net.Dispatch.Greeting.{greeting_order}

-- bytes that are ASCII decode to themselves
abbrev ambient : Ambient
ambient = record {
  now = 20;
  now_ms = 20;
  from_utf8_lossy = λ bytes. bytes;
  to_lowercase = to_ascii_lowercase;
  publishes = λ n. true;
}

abbrev greeting : List (ℕ × List ℕ × ℕ)
greeting = (1, codes "carol", 9) ∷ (7, codes "zz", 9) ∷ (8, [], 9) ∷ (1, 27 ∷ [], 9) ∷ []

dispatch_all-Continues_example :
    Continues alice.peers
      (dispatch_all ambient digits queues plain greeting one_queue alice).2.peers
dispatch_all-Continues_example =
    dispatch_all-Continues ambient digits queues plain greeting one_queue alice

nameless : HasLabels waiting_alice.peers
unfolding lookup
nameless remote peer found name e = absurd (ground arith)

dispatch_all-HasLabels_example :
    HasLabels (dispatch_all ambient digits queues plain greeting one_queue waiting_alice).2.peers
dispatch_all-HasLabels_example =
    dispatch_all-HasLabels ambient digits queues plain greeting one_queue waiting_alice nameless

carol_is_usable : peer_label (codes "carol") ≡ some (codes "carol")
unfolding peer_label nickname accepted trim is_whitespace contains_forbidden_control is_control
carol_is_usable = refl

registered : lookup 9 waiting_alice.peers ≡ some (new_peer 0)
unfolding lookup
registered = refl

identity_given : is_empty (trim (codes "A1")) ≡ false
unfolding trim is_whitespace
identity_given = refl

greeting_order_example :
    let seen =
      (observe digits to_ascii_lowercase
        (λ n. true)
        20
        (codes "carol")
        (trim (codes "A1"))
        waiting_alice.pins).1 in
    ((accept_identity ambient digits 9
        (codes "A1")
        (accept_hello ambient digits queues 9 (codes "carol") one_queue waiting_alice).2).pins
      ≡ seen)
    × ((accept_hello ambient digits queues 9
          (codes "carol")
          one_queue
          (accept_identity ambient digits 9 (codes "A1") waiting_alice)).2.pins
        ≡ seen)
greeting_order_example =
    greeting_order ambient digits queues 9 (codes "carol") (codes "A1") one_queue waiting_alice
      (new_peer 0) (codes "carol") registered refl refl carol_is_usable identity_given
