-- ===== src/Tox/Store/Tests.antt =====
-- A restart of the Tox transport on a concrete state.
use mathlib.Core.Path.{subst}
use meta_text.Prelude.{
  Bool-cases, inl, inr, sym, ◌==◌, ℕ, ◌≡◌, refl, true, false, List, [], ◌∷◌, none, All, arith,
}
use meta_text.Prelude.Bytes.{IsByte}
use meta_text.Prelude.Text.{Text, codes, to_ascii_lowercase, text_eq}
use meta_text.Prelude.Assoc.{lookup, number_key}
use meta_text.Hex.Digits.{digits, digits_laws}
use meta_text.Net.Frame.{MessageKind}
use meta_text.Tox.State.{
  QueuedMessage, ToxState, ToxTransport, FriendEntry, snapshot_state, tox_outbox_capacity,
}
use meta_text.Tox.Outbox.Bounds.{IsWithin}
use meta_text.Tox.Outbox.Queues.{queue_of}
use meta_text.Tox.Store.{load, parsed, restore_state}
use meta_text.Tox.Store.Index.{UniqueKeys}
use meta_text.Tox.Store.Queues.{AreBytes}
use meta_text.Tox.Store.Restored.{IsSound, IsFresh, restore_state-IsSound, restore_state-IsFresh}
use meta_text.Tox.Store.RoundTrip.{Survives, restore_state-snapshot_state}

-- ASCII case stands for the Unicode tables here.
abbrev lower : Text → Text
lower = to_ascii_lowercase

abbrev friends : List (ℕ × FriendEntry)
friends =
    (7, record { public_key = codes "AB"; name = codes "alice"; connected = false })
    ∷ (9, record { public_key = codes "CD"; name = codes "bob"; connected = true })
    ∷ []

abbrev message : ℕ → QueuedMessage
message id = record {
  message_id = id;
  body = 1 ∷ 2 ∷ [];
  kind = MessageKind.text;
  queued_at = 5_000_001;
}

abbrev transport : ToxTransport
transport = record {
  friends = friends;
  requests = record { public_key = codes "EF"; message = codes "hi" } ∷ [];
  outbox = (9, message 3 ∷ []) ∷ (7, message 1 ∷ message 2 ∷ []) ∷ [];
  next_message_id = 4;
  expired = 0;
  dropped_requests = 0;
  desired = [];
  file = none;
}

abbrev published : ToxState
published = snapshot_state digits transport

friends-UniqueKeys : UniqueKeys lower friends
unfolding text_eq to_ascii_lowercase
friends-UniqueKeys = (refl, (refl, tt))

message-AreBytes : All IsByte (1 ∷ 2 ∷ [])
message-AreBytes = (omega arith, (omega arith, tt))

payloads-AreBytes : (n : ℕ) → AreBytes (queue_of n transport.outbox)
unfolding lookup
payloads-AreBytes n = elim (Bool-cases (9 == n)) [
  | inl e ↦
      let here : queue_of n transport.outbox ≡ message 3 ∷ [] = rw (e) refl in
      subst AreBytes (sym here) (message-AreBytes, tt)
  | inr e ↦ elim (Bool-cases (7 == n)) [
    | inl e' ↦
        let here : queue_of n transport.outbox ≡ message 1 ∷ message 2 ∷ [] = rw (e, e') refl in
        subst AreBytes (sym here) (message-AreBytes, (message-AreBytes, tt))
    | inr e' ↦
        let here : queue_of n transport.outbox ≡ [] = rw (e, e') refl in
        subst AreBytes (sym here) tt
  ]
]

transport-IsWithin : IsWithin tox_outbox_capacity transport.outbox
unfolding lookup
transport-IsWithin = ((refl, (refl, tt)), λ n. ground arith)

restore_state-snapshot_state_example :
    Survives lower 9_000_000 transport
      (restore_state digits lower 9_000_000 (load (parsed published)) friends)
restore_state-snapshot_state_example =
    restore_state-snapshot_state digits digits_laws lower 9_000_000 transport friends-UniqueKeys
      payloads-AreBytes transport-IsWithin ((refl, tt), omega arith)

restore_state-IsSound_example :
    IsSound (restore_state digits lower 9_000_000 (load (parsed published)) friends)
restore_state-IsSound_example =
    restore_state-IsSound digits lower 9_000_000 (parsed published) friends

abbrev two_stored : ToxState
two_stored = record {
  version = 1;
  next_message_id = 2;
  requests = [];
  outbox =
      record {
        public_key = codes "AB";
        message_id = 8;
        kind = MessageKind.text;
        body = codes "00";
        queued_at_unix_ms = 5;
      }
      ∷ [];
}

restore_state-IsFresh_example :
    IsFresh two_stored (restore_state digits lower 9_000_000 two_stored friends).next_message_id
restore_state-IsFresh_example =
    restore_state-IsFresh digits lower 9_000_000 two_stored friends (omega arith, tt)
