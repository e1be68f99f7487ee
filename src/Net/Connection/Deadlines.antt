-- ===== src/Net/Connection/Deadlines.antt =====
-- Why `read_loop` ends, told by the registry, in crates/meta-text-backend/src/network.rs.
use meta_text.Prelude.{
  ℕ, ◌+◌, ◌≡◌, ◌⊎◌, refl, Bool, true, false, inl, inr, List, [], ◌∷◌, Option, none, some, arith,
  Bool-cases, Option-cases, if◌then◌else◌,
}
use meta_text.Prelude.Assoc.{lookup, number_key}
use meta_text.Hex.{Hex}
use meta_text.Crypto.{Primitives}
use meta_text.Net.Peers.{Channels, NetworkManager, Peer, Peers}
use meta_text.Net.Dispatch.{Ambient, dispatch, peer_greeted, keepalive_seen}
use meta_text.Net.Dispatch.Registry.{Keeps, Continues}
use meta_text.Net.Dispatch.Steps.{dispatch-IsStep}
use meta_text.Net.Dispatch.Registry.{IsStep-Continues}
use meta_text.Net.Connection.{
  Arrival, FrameRead, frame, closed, failed, Ended, no_greeting, no_traffic, waiting, ReadLoop,
  deadline, timed_out, is_late, ended, after_frame, read_frames,
}

-- How the loop's own state agrees with the registry: the greeting deadline stands exactly as long as
-- the peer has no name, and the idle deadline is armed exactly when the peer has sent a keepalive.
pub record Agrees (remote : ℕ) (s : ReadLoop) (peers : Peers) : Type 0 where
  pub ungreeted : (at : ℕ) → s.greeting_deadline ≡ some at → peer_greeted remote peers ≡ false
  pub greeted : s.greeting_deadline ≡ none → peer_greeted remote peers ≡ true
  pub armed : s.armed_with_keepalive ≡ keepalive_seen remote peers

-- What the reason for the end says about the peer.
abbrev pub Verdict : ℕ → Peers → Ended → Type 0
Verdict remote peers no_greeting = peer_greeted remote peers ≡ false
Verdict remote peers no_traffic =
    (peer_greeted remote peers ≡ true) × (keepalive_seen remote peers ≡ true)
Verdict remote peers waiting =
    (peer_greeted remote peers ≡ true) × (keepalive_seen remote peers ≡ false)
Verdict remote peers _ = Unit

abbrev is_greeted : Option Peer → Bool
is_greeted none = false
is_greeted (some peer) = elim peer.nickname [ none ↦ false | some name ↦ true ]

peer_greeted-lookup :
    (remote : ℕ) (peers : Peers) → peer_greeted remote peers ≡ is_greeted (lookup remote peers)
unfolding peer_greeted
peer_greeted-lookup remote peers = ground arith

abbrev is_armed : Option Peer → Bool
is_armed none = false
is_armed (some peer) = peer.keepalive_seen

keepalive_seen-lookup :
    (remote : ℕ) (peers : Peers) → keepalive_seen remote peers ≡ is_armed (lookup remote peers)
unfolding keepalive_seen
keepalive_seen-lookup remote peers = ground arith

Keeps-is_greeted : (o n : Option Peer) → Keeps o n → is_greeted o ≡ true → is_greeted n ≡ true
Keeps-is_greeted none n e h = cc
Keeps-is_greeted (some p) n (q, e, f) h = ground (arith, e, f.stays_named)

Keeps-is_armed : (o n : Option Peer) → Keeps o n → is_armed o ≡ true → is_armed n ≡ true
Keeps-is_armed none n e h = cc
Keeps-is_armed (some p) n (q, e, f) h = ground (arith, e, f.stays_armed)

-- what the deadline is, from the two conditions
pub deadline_greeted :
    (idle : ℕ) (s : ReadLoop)
    → s.greeting_deadline ≡ none
    → deadline idle s ≡ (if s.armed_with_keepalive then some (s.last_received + idle) else none)
unfolding deadline
deadline_greeted idle s e = rw (deadline, e) refl

timed_out-Verdict :
    (remote idle : ℕ) (s : ReadLoop) (peers : Peers) (at : ℕ)
    → Agrees remote s peers
    → deadline idle s ≡ some at
    → Verdict remote peers (timed_out s)
unfolding timed_out
timed_out-Verdict remote idle s peers at a e = elim (Option-cases s.greeting_deadline) [
  | inl unset ↦
      let which = deadline_greeted idle s unset in
      let seen : keepalive_seen remote peers ≡ true = ground (arith, a.armed) in
      rw (timed_out, unset) (a.greeted unset, seen)
  | inr (when, set) ↦ rw (timed_out, set) (a.ungreeted when set)
]

waiting-Verdict :
    (remote idle : ℕ) (s : ReadLoop) (peers : Peers)
    → Agrees remote s peers
    → deadline idle s ≡ none
    → Verdict remote peers waiting
unfolding deadline
waiting-Verdict remote idle s peers a e = elim (Option-cases s.greeting_deadline) [
  | inl unset ↦
      let which = deadline_greeted idle s unset in
      let silent : keepalive_seen remote peers ≡ false = ground (arith, a.armed) in
      (a.greeted unset, silent)
  | inr (when, set) ↦ ground (arith, set)
]

ended-Verdict :
    (remote idle : ℕ) (s : ReadLoop) (peers : Peers)
    → Agrees remote s peers
    → Verdict remote peers (ended idle s)
unfolding ended
ended-Verdict remote idle s peers a = elim (Option-cases (deadline idle s)) [
  | inl e ↦ rw (ended, e) (waiting-Verdict remote idle s peers a e)
  | inr (at, e) ↦ rw (ended, e) (timed_out-Verdict remote idle s peers at a e)
]

late-Verdict :
    (remote idle t : ℕ) (s : ReadLoop) (peers : Peers)
    → Agrees remote s peers
    → is_late (deadline idle s) t ≡ true
    → Verdict remote peers (timed_out s)
unfolding is_late
late-Verdict remote idle t s peers a late = elim (Option-cases (deadline idle s)) [
  | inl e ↦ ground (arith, e)
  | inr (at, e) ↦ timed_out-Verdict remote idle s peers at a e
]

-- A dispatched frame keeps the agreement.
pub after_frame-Agrees :
    (at remote : ℕ) (s : ReadLoop) (before after : Peers)
    → Agrees remote s before
    → Continues before after
    → Agrees remote (after_frame at remote s after) after
unfolding after_frame
after_frame-Agrees at remote s before after a continues =
    let kept = continues remote in
    let greets = Keeps-is_greeted (lookup remote before) (lookup remote after) kept in
    let arms = Keeps-is_armed (lookup remote before) (lookup remote after) kept in
    let g = peer_greeted-lookup remote before in
    let g' = peer_greeted-lookup remote after in
    let k = keepalive_seen-lookup remote before in
    let k' = keepalive_seen-lookup remote after in
    record {
      ungreeted = λ when e. ground arith;
      greeted = λ e. ground (arith, a.greeted, greets);
      armed = ground (arith, a.armed, arms);
    }

pub FrameRead-cases :
    (r : FrameRead)
    → (r ≡ closed) ⊎ ((r ≡ failed) ⊎ ((kind : ℕ) × (payload : List ℕ) × (r ≡ frame kind payload)))
FrameRead-cases (frame kind payload) = inr (inr (kind, payload, refl))
FrameRead-cases closed = inl refl
FrameRead-cases failed = inr (inl refl)

module _ (env : Ambient) (hex : Hex) (mpsc : Channels) (prims : Primitives) (remote : ℕ) where
  open mpsc use {Store}

  pub read_frames-Verdict :
      (arrivals : List Arrival) (s : ReadLoop) (c : Store) (m : NetworkManager)
      → Agrees remote s m.peers
      → let (end, events, c', m') = read_frames env hex mpsc prims remote arrivals s c m in
        Verdict remote m'.peers end
  unfolding read_frames
  read_frames-Verdict [] s c m a = ended-Verdict remote m.idle_timeout s m.peers a
  read_frames-Verdict (arrival ∷ arrivals) s c m a = elim (FrameRead-cases arrival.read) [
    | inl e ↦ elim (Bool-cases (is_late (deadline m.idle_timeout s) arrival.at)) [
      | inl late ↦ rw (e, late) (late-Verdict remote m.idle_timeout arrival.at s m.peers a late)
      | inr prompt ↦ rw (e, prompt) tt
    ]
    | inr (inl e) ↦ elim (Bool-cases (is_late (deadline m.idle_timeout s) arrival.at)) [
      | inl late ↦ rw (e, late) (late-Verdict remote m.idle_timeout arrival.at s m.peers a late)
      | inr prompt ↦ rw (e, prompt) tt
    ]
    | inr (inr (kind, payload, e)) ↦
        let now : Ambient = record env { now = arrival.at } in
        let (events, c', m') = dispatch now hex mpsc prims kind payload remote c m in
        let continues =
          IsStep-Continues remote m.peers m'.peers
            (dispatch-IsStep now hex mpsc prims kind payload remote c m) in
        let s' = after_frame arrival.at remote s m'.peers in
        let later =
          read_frames-Verdict arrivals s' c' m'
            (after_frame-Agrees arrival.at remote s m.peers m'.peers a continues) in
        elim (Bool-cases (is_late (deadline m.idle_timeout s) arrival.at)) [
          | inl late ↦ rw (e, late) (late-Verdict remote m.idle_timeout arrival.at s m.peers a late)
          | inr prompt ↦ rw (e, prompt) later
        ]
  ]
