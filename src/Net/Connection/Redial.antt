-- ===== src/Net/Connection/Redial.antt =====
-- Which addresses the supervisor dials again, in crates/meta-text-backend/src/network.rs.
use meta_text.Prelude.{
  ℕ, ◌≡◌, refl, sym, ap, ◌∙◌, true, inl, inr, [], ◌∷◌, Option, none, some, arith, Bool-cases, any,
  List, ◌+◌, ◌-◌, ◌^◌, min, ◌==◌, false, Option-cases,
}
use meta_text.Prelude.Text.{Text, text_eq, is_empty, trim}
use meta_text.Prelude.Assoc.{lookup, insert, number_key, text_key, lookup-insert, lookup-remove}
use meta_text.Prelude.Assoc.Distinct.{Distinct, insert-Distinct}
use meta_text.Net.Peers.{NetworkManager, Peer, DesiredPeer, DesiredPeers}
use meta_text.Net.Connection.{
  clear_resolved, clear_all, disconnect, mark_resolved, pending_peers, desire_peer, note_failure,
}

abbrev pub IsPending : Text → DesiredPeers → Type 0
IsPending address desired = any (text_eq address) (pending_peers desired) ≡ true

-- the entry of an address, where it is dialled again
abbrev pub IsUnresolved : Option DesiredPeer → Type 0
IsUnresolved none = Unit
IsUnresolved (some peer) = peer.resolved ≡ none

-- A known address that is not resolved is dialled again.
lookup-IsPending :
    (address : Text) (peer : DesiredPeer) (desired : DesiredPeers)
    → lookup address desired ≡ some peer
    → peer.resolved ≡ none
    → IsPending address desired
unfolding lookup pending_peers
lookup-IsPending address peer [] e free = cc
lookup-IsPending address peer ((a, p) ∷ desired) e free = ground (
  arith,
  text_key.beq_iff a address,
  text_key.beq_iff address a,
  lookup-IsPending address peer desired,
)

lookup-clear_all :
    (remote : ℕ) (address : Text) (peer : DesiredPeer) (desired : DesiredPeers)
    → lookup address desired ≡ some peer
    → lookup address (clear_all remote desired) ≡ some (clear_resolved remote peer)
unfolding lookup clear_all
lookup-clear_all remote address peer [] e = cc
lookup-clear_all remote address peer ((a, p) ∷ desired) e =
    ground (arith, lookup-clear_all remote address peer desired)

-- When a connection ends, every address that was resolved to it is dialled again.
pub disconnect-IsPending :
    (remote : ℕ) (address : Text) (peer : DesiredPeer) (m : NetworkManager)
    → lookup address m.desired_peers ≡ some peer
    → peer.resolved ≡ some remote
    → IsPending address (disconnect remote m).desired_peers
      × (lookup remote (disconnect remote m).peers ≡ none)
unfolding disconnect clear_resolved
disconnect-IsPending remote address peer m found up = (
  lookup-IsPending address (clear_resolved remote peer) (clear_all remote m.desired_peers)
      (lookup-clear_all remote address peer m.desired_peers found) (ground (arith, up)),
  ground (arith, lookup-remove remote remote m.peers),
)

-- an address that is not in the table is not dialled
absent_not_pending :
    (address : Text) (desired : DesiredPeers)
    → lookup address desired ≡ none
    → any (text_eq address) (pending_peers desired) ≡ false
unfolding lookup pending_peers
absent_not_pending address [] e = refl
absent_not_pending address ((a, p) ∷ desired) e = ground (
  arith,
  text_key.beq_iff a address,
  text_key.beq_iff address a,
  absent_not_pending address desired,
)

-- one that stands there once and is resolved is not dialled either
resolved_not_pending :
    (address : Text) (remote : ℕ) (peer : DesiredPeer) (desired : DesiredPeers)
    → Distinct desired
    → lookup address desired ≡ some peer
    → peer.resolved ≡ some remote
    → any (text_eq address) (pending_peers desired) ≡ false
unfolding lookup pending_peers
resolved_not_pending address remote peer [] d e up = refl
resolved_not_pending address remote peer ((a, p) ∷ desired) (fresh, d) e up =
    elim (Bool-cases (text_eq a address)) [
      | inl same ↦
          let is : a ≡ address = (text_key.beq_iff a address).0 same in
          let absent =
            absent_not_pending address desired (ap (λ k. lookup k desired) (sym is) ∙ fresh) in
          ground (arith, same, up)
      | inr other ↦ ground (
        arith,
        other,
        text_key.beq_iff a address,
        text_key.beq_iff address a,
        resolved_not_pending address remote peer desired d,
      )
    ]

clear_all_absent :
    (remote : ℕ) (address : Text) (desired : DesiredPeers)
    → lookup address desired ≡ none
    → lookup address (clear_all remote desired) ≡ none
unfolding lookup clear_all
clear_all_absent remote address [] e = refl
clear_all_absent remote address ((a, p) ∷ desired) e =
    ground (arith, clear_all_absent remote address desired)

clear_all-Distinct :
    (remote : ℕ) (desired : DesiredPeers) → Distinct desired → Distinct (clear_all remote desired)
unfolding clear_all
clear_all-Distinct remote [] d = tt
clear_all-Distinct remote ((a, p) ∷ desired) (fresh, d) =
    (clear_all_absent remote a desired fresh, clear_all-Distinct remote desired d)

-- What may happen later: a new desired peer, an attempt that fails, an address that is dialled, a
-- connection that is registered, and one that ends.
pub data Later : Type 0 where
  desires fails : Text → Later
  resolves : Text → ℕ → Later
  registers : ℕ → Peer → Later
  ends : ℕ → Later

unfoldable pub after : Later → NetworkManager → NetworkManager
unfolding desire_peer note_failure mark_resolved disconnect
after (desires address) m = desire_peer address m
after (fails address) m = note_failure address m
after (resolves address remote) m = mark_resolved address (some remote) m
after (registers remote peer) m = record m { peers = insert remote peer m.peers }
after (ends remote) m = disconnect remote m

unfoldable pub after_all : List Later → NetworkManager → NetworkManager
after_all [] m = m
after_all (e ∷ es) m = after_all es (after e m)

-- It is not about this address, nor about a connection with this socket address.
abbrev pub Spares : Text → ℕ → Later → Type 0
Spares address remote (desires a) = Unit
Spares address remote (fails a) = Unit
Spares address remote (resolves a r) = text_eq a address ≡ false
Spares address remote (registers r peer) = (r == remote) ≡ false
Spares address remote (ends r) = (r == remote) ≡ false

abbrev pub AllSpare : Text → ℕ → List Later → Type 0
AllSpare address remote [] = Unit
AllSpare address remote (e ∷ es) = Spares address remote e × AllSpare address remote es

-- The address counts as connected to `remote`, and nothing is.
abbrev IsStuck : Text → ℕ → NetworkManager → Type 0
IsStuck address remote m =
    Distinct m.desired_peers
    × (lookup remote m.peers ≡ none)
    × (peer : DesiredPeer) × (lookup address m.desired_peers ≡ some peer)
    × (peer.resolved ≡ some remote)

after-IsStuck :
    (address : Text) (remote : ℕ) (e : Later) (m : NetworkManager)
    → Spares address remote e
    → IsStuck address remote m
    → IsStuck address remote (after e m)
unfolding after desire_peer note_failure mark_resolved disconnect clear_resolved
after-IsStuck address remote (desires a) m spares (d, gone, peer, found, up) =
    elim (Option-cases (lookup a m.desired_peers)) [
      | inr (known, e) ↦ rw (desire_peer, e) (d, gone, peer, found, up)
      | inl e ↦ elim (Bool-cases (is_empty (trim a))) [
        | inl blank ↦ rw (desire_peer, e, blank) (d, gone, peer, found, up)
        | inr named ↦
            let wanted : DesiredPeer = record { resolved = none; attempts = 0 } in
            let kept : lookup address (insert a wanted m.desired_peers) ≡ some peer = ground (
              arith,
              lookup-insert a address wanted m.desired_peers,
              text_key.beq_iff a address,
              e,
              found,
            ) in
            rw (desire_peer, e, named)
              (insert-Distinct a wanted m.desired_peers d, gone, peer, kept, up)
      ]
    ]
after-IsStuck address remote (fails a) m spares (d, gone, peer, found, up) =
    elim (Option-cases (lookup a m.desired_peers)) [
      | inl e ↦ rw (note_failure, e) (d, gone, peer, found, up)
      | inr (known, e) ↦
          let more : DesiredPeer = record known {
            attempts = min (known.attempts + 1) (2 ^ 32 - 1);
          } in
          let insertion = lookup-insert a address more m.desired_peers in
          elim (Bool-cases (text_eq a address)) [
            | inl same ↦
                let is : a ≡ address = (text_key.beq_iff a address).0 same in
                let one : some known ≡ some peer =
                  sym e ∙ ap (λ k. lookup k m.desired_peers) is ∙ found in
                let still : known.resolved ≡ some remote = ground (arith, one, up) in
                rw (note_failure, e)
                  (
                    insert-Distinct a more m.desired_peers d,
                    gone,
                    more,
                    ground (arith, insertion, same),
                    still,
                  )
            | inr other ↦
                rw (note_failure, e)
                  (
                    insert-Distinct a more m.desired_peers d,
                    gone,
                    peer,
                    ground (arith, insertion, other, found),
                    up,
                  )
          ]
    ]
after-IsStuck address remote (resolves a r) m spares (d, gone, peer, found, up) =
    let marked : DesiredPeer = record { resolved = some r; attempts = 0 } in
    (
      insert-Distinct a marked m.desired_peers d,
      gone,
      peer,
      ground (arith, lookup-insert a address marked m.desired_peers, spares, found),
      up,
    )
after-IsStuck address remote (registers r new) m spares (d, gone, peer, found, up) =
    (d, ground (arith, lookup-insert r remote new m.peers, spares, gone), peer, found, up)
after-IsStuck address remote (ends r) m spares (d, gone, peer, found, up) = (
  clear_all-Distinct r m.desired_peers d,
  ground (arith, lookup-remove r remote m.peers, gone),
  clear_resolved r peer,
  lookup-clear_all r address peer m.desired_peers found,
  ground (arith, up, spares),
)

after_all-IsStuck :
    (address : Text) (remote : ℕ) (es : List Later) (m : NetworkManager)
    → AllSpare address remote es
    → IsStuck address remote m
    → IsStuck address remote (after_all es m)
unfolding after_all
after_all-IsStuck address remote [] m spares stuck = stuck
after_all-IsStuck address remote (e ∷ es) m (spare, spares) stuck =
    after_all-IsStuck address remote es (after e m) spares
      (after-IsStuck address remote e m spare stuck)

-- Where the clean-up of a connection runs before `connect` marks its address as resolved to it: whatever
-- peers are desired, dialled, connected and disconnected afterwards, nothing is connected under the socket
-- address of that connection, and the address is not among those that the supervisor dials, as long as
-- nobody else resolves this address and no other connection has that socket address.
pub mark_resolved_late :
    (remote : ℕ) (address : Text) (m : NetworkManager) (es : List Later)
    → Distinct m.desired_peers
    → AllSpare address remote es
    → let late = after_all es (mark_resolved address (some remote) (disconnect remote m)) in
      (lookup remote late.peers ≡ none)
      × (any (text_eq address) (pending_peers late.desired_peers) ≡ false)
unfolding mark_resolved disconnect
mark_resolved_late remote address m es d spares =
    let cleared = clear_all remote m.desired_peers in
    let marked : DesiredPeer = record { resolved = some remote; attempts = 0 } in
    let start : IsStuck address remote (mark_resolved address (some remote) (disconnect remote m)) =
      (
        insert-Distinct address marked cleared (clear_all-Distinct remote m.desired_peers d),
        ground (arith, lookup-remove remote remote m.peers),
        marked,
        ground
            (arith, lookup-insert address address marked cleared, text_key.beq_iff address address),
        refl,
      ) in
    let late = after_all es (mark_resolved address (some remote) (disconnect remote m)) in
    let (distinct, gone, peer, found, up) =
      after_all-IsStuck address remote es
        (mark_resolved address (some remote) (disconnect remote m)) spares start in
    (gone, resolved_not_pending address remote peer late.desired_peers distinct found up)
