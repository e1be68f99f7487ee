-- ===== src/Net/Dispatch/Registry.antt =====
-- What the frames of a connection can do to the registry, in crates/meta-text-backend/src/network.rs.
use mathlib.Core.Path.{subst}
use meta_text.Prelude.{
  ℕ, ◌≡◌, refl, sym, ap, ◌∙◌, true, inl, inr, ◌⊎◌, Option, none, some, arith, Bool-cases,
  Option-cases, if◌then◌else◌, ◌==◌,
}
use meta_text.Prelude.Text.{Text}
use meta_text.Prelude.Assoc.{lookup, number_key, lookup-insert}
use meta_text.Net.Peers.{Peer, Peers}
use meta_text.Net.Dispatch.{
  update_peer, with_nickname, with_identity, with_ephemeral, with_keepalive,
}
use meta_text.Ipc.Protocol.{max_nickname_len}
use meta_text.Ipc.Validation.Labels.{IsLabel}

-- What a later state of a connection keeps of an earlier one: its queue, its own ephemeral key, the
-- first ephemeral key that the peer announced, that it has a name, and that it sent a keepalive.
pub record Follows (p q : Peer) : Type 0 where
  pub same_sender : q.sender ≡ p.sender
  pub same_ephemeral : q.ephemeral ≡ p.ephemeral
  pub first_kept : (key : Text) → p.remote_ephemeral ≡ some key → q.remote_ephemeral ≡ some key
  pub stays_named : q.nickname ≡ none → p.nickname ≡ none
  pub stays_armed : p.keepalive_seen ≡ true → q.keepalive_seen ≡ true

Follows-refl : (p : Peer) → Follows p p
Follows-refl p = record {
  same_sender = refl;
  same_ephemeral = refl;
  first_kept = λ key e. e;
  stays_named = λ e. e;
  stays_armed = λ e. e;
}

Follows-trans : {p q r : Peer} → Follows p q → Follows q r → Follows p r
Follows-trans f g = record {
  same_sender = g.same_sender ∙ f.same_sender;
  same_ephemeral = g.same_ephemeral ∙ f.same_ephemeral;
  first_kept = λ key e. g.first_kept key (f.first_kept key e);
  stays_named = λ e. f.stays_named (g.stays_named e);
  stays_armed = λ e. g.stays_armed (f.stays_armed e);
}

abbrev pub Keeps : Option Peer → Option Peer → Type 0
Keeps none after = after ≡ none
Keeps (some p) after = (q : Peer) × (after ≡ some q) × Follows p q

-- The later registry has the same connections, each following its earlier state.
abbrev pub Continues : Peers → Peers → Type 0
Continues before after = (remote : ℕ) → Keeps (lookup remote before) (lookup remote after)

pub Keeps-refl : (o : Option Peer) → Keeps o o
Keeps-refl none = refl
Keeps-refl (some p) = (p, refl, Follows-refl p)

pub Keeps-trans : (o n l : Option Peer) → Keeps o n → Keeps n l → Keeps o l
Keeps-trans none n l e k = subst (λ x. Keeps x l) e k
Keeps-trans (some p) n l (q, e, f) k =
    let (r, e', g) = subst (λ x. Keeps x l) e k in (r, e', Follows-trans f g)

-- a name that was announced is a label
abbrev pub HasLabel : Peer → Type 0
HasLabel peer = (name : Text) → peer.nickname ≡ some name → IsLabel max_nickname_len name

abbrev pub HasLabels : Peers → Type 0
HasLabels peers = (remote : ℕ) (peer : Peer) → lookup remote peers ≡ some peer → HasLabel peer

-- what a frame may do to its own connection
abbrev pub IsAllowed : (Peer → Peer) → Type 0
IsAllowed change =
    (peer : Peer) → Follows peer (change peer) × (HasLabel peer → HasLabel (change peer))

-- either nothing, or an allowed change of one connection
abbrev pub IsStep : ℕ → Peers → Peers → Type 0
IsStep remote before after =
    (after ≡ before)
    ⊎ (change : Peer → Peer) × (after ≡ update_peer remote change before) × IsAllowed change

abbrev pub changed : (Peer → Peer) → Option Peer → Option Peer
changed change none = none
changed change (some peer) = some (change peer)

pub lookup-update_peer :
    (remote : ℕ) (change : Peer → Peer) (peers : Peers) (j : ℕ)
    → lookup j (update_peer remote change peers)
      ≡ (if remote == j then changed change (lookup j peers) else lookup j peers)
unfolding update_peer
lookup-update_peer remote change peers j = elim (Option-cases (lookup remote peers)) [
  | inl e ↦ rw (update_peer, e) (ground (arith, e))
  | inr (peer, e) ↦
      rw (update_peer, e) (ground (arith, e, lookup-insert remote j (change peer) peers))
]

changed-Keeps :
    (change : Peer → Peer) (o : Option Peer) → IsAllowed change → Keeps o (changed change o)
changed-Keeps change none allowed = refl
changed-Keeps change (some peer) allowed = (change peer, refl, (allowed peer).0)

pub IsStep-Continues :
    (remote : ℕ) (before after : Peers) → IsStep remote before after → Continues before after
IsStep-Continues remote before after (inl same) j =
    subst (λ x. Keeps (lookup j before) (lookup j x)) (sym same) (Keeps-refl (lookup j before))
IsStep-Continues remote before after (inr (change, e, allowed)) j =
    subst (Keeps (lookup j before))
      (sym (ap (lookup j) e ∙ lookup-update_peer remote change before j))
      (elim (Bool-cases (remote == j)) [
        | inl here ↦ rw here (changed-Keeps change (lookup j before) allowed)
        | inr there ↦ rw there (Keeps-refl (lookup j before))
      ])

abbrev Labelled : Option Peer → Type 0
Labelled none = Unit
Labelled (some peer) = HasLabel peer

changed-Labelled :
    (change : Peer → Peer) (o : Option Peer)
    → IsAllowed change
    → Labelled o
    → Labelled (changed change o)
changed-Labelled change none allowed l = tt
changed-Labelled change (some peer) allowed l = (allowed peer).1 l

pub Labelled-lookup : (peers : Peers) (j : ℕ) → HasLabels peers → Labelled (lookup j peers)
Labelled-lookup peers j labels = elim (Option-cases (lookup j peers)) [
  | inl e ↦ subst Labelled (sym e) tt
  | inr (peer, e) ↦ subst Labelled (sym e) (labels j peer e)
]

pub IsStep-HasLabels :
    (remote : ℕ) (before after : Peers)
    → IsStep remote before after
    → HasLabels before
    → HasLabels after
IsStep-HasLabels remote before after (inl same) labels = subst HasLabels (sym same) labels
IsStep-HasLabels remote before after (inr (change, e, allowed)) labels = λ j peer found.
    let l = Labelled-lookup before j labels in
    let is = ap (lookup j) e ∙ lookup-update_peer remote change before j in
    subst Labelled (sym is ∙ found) (elim (Bool-cases (remote == j)) [
      | inl here ↦ rw here (changed-Labelled change (lookup j before) allowed l)
      | inr there ↦ rw there l
    ])

pub with_nickname-IsAllowed :
    (name : Text) → IsLabel max_nickname_len name → IsAllowed (with_nickname name)
unfolding with_nickname
with_nickname-IsAllowed name label peer = (
  record {
    same_sender = refl;
    same_ephemeral = refl;
    first_kept = λ key e. e;
    stays_named = λ e. cc;
    stays_armed = λ e. e;
  },
  λ before other e. let same : name ≡ other = cc in subst (IsLabel max_nickname_len) same label,
)

pub with_identity-IsAllowed : (identity : Text) → IsAllowed (with_identity identity)
unfolding with_identity
with_identity-IsAllowed identity peer = (
  record {
    same_sender = refl;
    same_ephemeral = refl;
    first_kept = λ key e. e;
    stays_named = λ e. e;
    stays_armed = λ e. e;
  },
  λ before. before,
)

pub with_keepalive-IsAllowed : IsAllowed with_keepalive
unfolding with_keepalive
with_keepalive-IsAllowed peer = (
  record {
    same_sender = refl;
    same_ephemeral = refl;
    first_kept = λ key e. e;
    stays_named = λ e. e;
    stays_armed = λ e. refl;
  },
  λ before. before,
)

pub with_ephemeral-IsAllowed : (parsed : Option Text) → IsAllowed (with_ephemeral parsed)
unfolding with_ephemeral
with_ephemeral-IsAllowed parsed peer = elim (Option-cases peer.remote_ephemeral) [
  | inl e ↦
      rw (with_ephemeral, e)
        (
          record {
            same_sender = refl;
            same_ephemeral = refl;
            first_kept = λ key k. cc;
            stays_named = λ k. k;
            stays_armed = λ k. k;
          },
          λ before. before,
        )
  | inr (first, e) ↦
      let same : with_ephemeral parsed peer ≡ peer = simp (with_ephemeral, e) refl in
      subst (λ q. Follows peer q × (HasLabel peer → HasLabel q)) (sym same)
        (Follows-refl peer, λ before. before)
]
