-- ===== src/Net/Connection/Timely.antt =====
-- When the two deadlines of `read_loop` are enforced, in crates/meta-text-backend/src/network.rs.
use meta_text.Prelude.{
  ℕ, ◌+◌, ◌≤◌, ◌<◌, ◌≡◌, ◌⊎◌, refl, sym, true, false, inl, inr, List, [], ◌∷◌, ◌++◌, some, arith,
  Bool-cases, Option-cases, if◌then◌else◌,
}
use meta_text.Hex.{Hex}
use meta_text.Crypto.{Primitives}
use meta_text.Net.Peers.{Channels, NetworkManager, Peers}
use meta_text.Net.Dispatch.{Ambient, AppEvent, dispatch, peer_greeted, keepalive_seen}
use meta_text.Net.Dispatch.Registry.{IsStep-Continues}
use meta_text.Net.Dispatch.Steps.{dispatch-IsStep}
use meta_text.Net.Connection.{
  Arrival, frame, closed, failed, Ended, connection_closed, read_error, no_greeting, no_traffic,
  waiting, ReadLoop, deadline, timed_out, is_late, ended, after_frame, read_frames, started_at,
}
use meta_text.Net.Connection.Deadlines.{
  Agrees, Verdict, FrameRead-cases, after_frame-Agrees, read_frames-Verdict,
}

-- how a connection ends to which nothing arrives in time
abbrev pub reason_of : ℕ → Peers → Ended
reason_of remote peers =
    if peer_greeted remote peers
    then if keepalive_seen remote peers then no_traffic else waiting
    else no_greeting

module _ (remote limit idle last at : ℕ) (peers : Peers) where
  -- Something that arrives at `at` is too late: the peer has no name and `limit` has passed, or it has one,
  -- has sent a keepalive, and the idle time since its last frame has passed.
  abbrev pub IsOverdue : Type 0
  IsOverdue =
      ((peer_greeted remote peers ≡ false) × (limit < at))
      ⊎ ((peer_greeted remote peers ≡ true)
          × (keepalive_seen remote peers ≡ true)
          × (last + idle < at))

  -- It is in time.
  abbrev pub IsInTime : Type 0
  IsInTime =
      ((peer_greeted remote peers ≡ false) × (at ≤ limit))
      ⊎ ((peer_greeted remote peers ≡ true)
          × ((keepalive_seen remote peers ≡ false) ⊎ (at ≤ last + idle)))

-- The greeting deadline of the loop, where it stands, is `limit`.
abbrev InForce : ℕ → ReadLoop → Type 0
InForce limit s = (at : ℕ) → s.greeting_deadline ≡ some at → at ≡ limit

ended-reason_of :
    (remote idle : ℕ) (s : ReadLoop) (peers : Peers)
    → Agrees remote s peers
    → ended idle s ≡ reason_of remote peers
unfolding ended deadline timed_out
ended-reason_of remote idle s peers a = elim (Option-cases s.greeting_deadline) [
  | inl unset ↦ let named = a.greeted unset in ground (arith, unset, named, a.armed)
  | inr (when, set) ↦ let nameless = a.ungreeted when set in ground (arith, set, nameless)
]

late-IsOverdue :
    (remote limit idle at : ℕ) (s : ReadLoop) (peers : Peers)
    → Agrees remote s peers
    → InForce limit s
    → is_late (deadline idle s) at ≡ true
    → IsOverdue remote limit idle s.last_received at peers × (timed_out s ≡ reason_of remote peers)
unfolding is_late deadline timed_out
late-IsOverdue remote limit idle at s peers a force late = elim (Option-cases s.greeting_deadline) [
  | inl unset ↦
      let named = a.greeted unset in
      let seen : keepalive_seen remote peers ≡ true = ground (arith, unset, late, a.armed) in
      let passed : s.last_received + idle < at = ground (arith, unset, late) in
      (inr (named, seen, passed), ground (arith, unset, named, seen))
  | inr (when, set) ↦
      let nameless = a.ungreeted when set in
      let same = force when set in
      let passed : limit < at = ground (arith, set, late, same) in
      (inl (nameless, passed), ground (arith, set, nameless))
]

prompt-IsInTime :
    (remote limit idle at : ℕ) (s : ReadLoop) (peers : Peers)
    → Agrees remote s peers
    → InForce limit s
    → is_late (deadline idle s) at ≡ false
    → IsInTime remote limit idle s.last_received at peers
unfolding is_late deadline
prompt-IsInTime remote limit idle at s peers a force prompt =
    elim (Option-cases s.greeting_deadline) [
      | inl unset ↦
          let named = a.greeted unset in
          elim (Bool-cases (keepalive_seen remote peers)) [
            | inl seen ↦
                let within : at ≤ s.last_received + idle =
                  ground (arith, unset, prompt, a.armed, seen) in
                inr (named, inr within)
            | inr unseen ↦ inr (named, inl unseen)
          ]
      | inr (when, set) ↦
          let nameless = a.ungreeted when set in
          let same = force when set in
          let within : at ≤ limit = ground (arith, set, prompt, same) in inl (nameless, within)
    ]

after_frame-InForce :
    (limit at remote : ℕ) (s : ReadLoop) (peers : Peers)
    → InForce limit s
    → InForce limit (after_frame at remote s peers)
unfolding after_frame
after_frame-InForce limit at remote s peers force when e =
    let set : s.greeting_deadline ≡ some when = ground (arith, e) in force when set

module _ (env : Ambient) (hex : Hex) (mpsc : Channels) (prims : Primitives) (remote : ℕ) where
  open mpsc use {Store}

  abbrev Result : Type 0
  Result = Ended × List AppEvent × Store × NetworkManager

  -- What a loop does with its arrivals, told by their times and the registry alone. At the first arrival that
  -- is too late it ends, for the reason that the registry tells, and does nothing with the arrival; an
  -- arrival in time is acted on: the end of the stream or an error ends the loop, and a frame is dispatched
  -- at its time, after which the next arrival is judged by the registry then. Where nothing more
  -- arrives, the registry tells how it ends.
  abbrev pub IsTimely : ℕ → ℕ → List Arrival → Store → NetworkManager → Result → Type 0
  IsTimely limit last [] c m result = result ≡ (reason_of remote m.peers, [], c, m)
  IsTimely limit last (arrival ∷ arrivals) c m result =
      let now : Ambient = record env { now = arrival.at } in
      (IsOverdue remote limit m.idle_timeout last arrival.at m.peers
        × (result ≡ (reason_of remote m.peers, [], c, m)))
      ⊎ (IsInTime remote limit m.idle_timeout last arrival.at m.peers
          × (elim arrival.read as (λ r. Type 0) [
            | closed ↦ result ≡ (connection_closed, [], c, m)
            | failed ↦ result ≡ (read_error, [], c, m)
            | frame kind payload ↦
                let (events, c', m') = dispatch now hex mpsc prims kind payload remote c m in
                (later : Result) × IsTimely limit arrival.at arrivals c' m' later
                × (result ≡ (later.0, events ++ later.1, later.2, later.3))
          ]))

  read_frames-IsTimely :
      (limit : ℕ) (arrivals : List Arrival) (s : ReadLoop) (c : Store) (m : NetworkManager)
      → Agrees remote s m.peers
      → InForce limit s
      → IsTimely limit s.last_received arrivals c m
          (read_frames env hex mpsc prims remote arrivals s c m)
  unfolding read_frames after_frame
  read_frames-IsTimely limit [] s c m a force =
      rw (ended-reason_of remote m.idle_timeout s m.peers a) refl
  read_frames-IsTimely limit (arrival ∷ arrivals) s c m a force =
      let whole = read_frames env hex mpsc prims remote (arrival ∷ arrivals) s c m in
      elim (Bool-cases (is_late (deadline m.idle_timeout s) arrival.at)) [
        | inl late ↦
            let (overdue, why) =
              late-IsOverdue remote limit m.idle_timeout arrival.at s m.peers a force late in
            inl (
              overdue,
              elim (FrameRead-cases arrival.read) [
                | inl e ↦ rw (e, late, why) refl
                | inr (inl e) ↦ rw (e, late, why) refl
                | inr (inr (kind, payload, e)) ↦ rw (e, late, why) refl
              ],
            )
        | inr prompt ↦
            let in_time =
              prompt-IsInTime remote limit m.idle_timeout arrival.at s m.peers a force prompt in
            elim (FrameRead-cases arrival.read) [
              | inl e ↦
                  let round : whole ≡ (connection_closed, [], c, m) =
                    rw (read_frames, e, prompt) refl in
                  inr (in_time, rw e round)
              | inr (inl e) ↦
                  let round : whole ≡ (read_error, [], c, m) = rw (read_frames, e, prompt) refl in
                  inr (in_time, rw e round)
              | inr (inr (kind, payload, e)) ↦
                  let now : Ambient = record env { now = arrival.at } in
                  let (events, c', m') = dispatch now hex mpsc prims kind payload remote c m in
                  let continues =
                    IsStep-Continues remote m.peers m'.peers
                      (dispatch-IsStep now hex mpsc prims kind payload remote c m) in
                  let s' = after_frame arrival.at remote s m'.peers in
                  let later =
                    read_frames-IsTimely limit arrivals s' c' m'
                      (after_frame-Agrees arrival.at remote s m.peers m'.peers a continues)
                      (after_frame-InForce limit arrival.at remote s m'.peers force) in
                  let next = read_frames env hex mpsc prims remote arrivals s' c' m' in
                  let round : whole ≡ (next.0, events ++ next.1, next.2, next.3) =
                    rw (read_frames, e, prompt) refl in
                  inr (in_time, rw e (next, later, round))
            ]
      ]

  -- A connection that is registered without a name, and whose peer sent no keepalive yet, does with
  -- what arrives exactly this. Something that arrives after the time for the greeting while the peer has
  -- no name, or after the idle time since the last frame when the peer has a name and has sent a
  -- keepalive, ends the loop for that reason and is not acted on. What arrives in time is acted on, and
  -- the loop goes on after a frame. Where nothing more arrives, a loop whose peer has no name ends for
  -- the missing greeting, one whose peer has a name and has sent a keepalive ends for silence, and one
  -- whose peer has a name and sent none waits for ever.
  pub read_frames_deadlines :
      (arrivals : List Arrival) (c : Store) (m : NetworkManager)
      → peer_greeted remote m.peers ≡ false
      → keepalive_seen remote m.peers ≡ false
      → let start = started_at env hex mpsc prims env.now m in
        let result = read_frames env hex mpsc prims remote arrivals start c m in
        IsTimely (env.now + m.handshake_timeout) env.now arrivals c m result
        × Verdict remote result.3.peers result.0
  unfolding after_frame
  read_frames_deadlines arrivals c m nameless silent =
      let start = started_at env hex mpsc prims env.now m in
      let agrees : Agrees remote start m.peers = record {
        ungreeted = λ at e. nameless;
        greeted = λ e. cc;
        armed = sym silent;
      } in
      (
        read_frames-IsTimely (env.now + m.handshake_timeout) arrivals start c m agrees
            (λ at e. ground (arith, e)),
        read_frames-Verdict env hex mpsc prims remote arrivals start c m agrees,
      )
