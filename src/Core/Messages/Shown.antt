-- ===== src/Core/Messages/Shown.antt =====
-- What is kept of a message that was sent is what the receiver shows, in
-- crates/meta-text-core/src/ipc/core.rs.
use meta_text.Prelude.{ℕ, ◌≡◌, Bool, List, Option, none, some, ok, length}
use meta_text.Prelude.Text.{Text, as_bytes}
use meta_text.Hex.{Hex}
use meta_text.Crypto.{Primitives}
use meta_text.Core.State.{CoreService}
use meta_text.Core.Messages.{
  StoredMessage, Outgoing, sealed_payload, on_message_received, message_received,
}

module _ (hex : Hex) (prims : Primitives) (out : Outgoing) (from_utf8 : List ℕ → Option Text)
    (decodes : (t : Text) → from_utf8 (as_bytes t) ≡ some t)
    (lossy : (t : Text) → out.lossy (as_bytes t) ≡ t) where
  -- what the record of a message says of the payload that was handed to the transport `net`, which is
  -- `left` with it, and of the event at the receiver
  abbrev pub IsShown :
      List ℕ
      → CoreService
      → Bool
      → Text
      → CoreService
      → out.Transport
      → Option StoredMessage
      → out.Transport
      → Type 0
  IsShown nonce s persistent peer there net none left = Unit
  IsShown nonce s persistent peer there net (some stored) left =
      (body : List ℕ) × (payload : List ℕ) × (encrypted : Bool) × (sealed_payload hex prims out
          nonce stored.peer body s
        ≡ ok (payload, encrypted))
      × (left ≡ (out.send_payload stored.peer payload stored.kind stored.content_type net).1)
      × (stored.wire_bytes ≡ length payload)
      × ((on_message_received hex from_utf8 persistent peer body stored.kind stored.content_type
            there).0
          ≡ message_received peer stored.body (length body) stored.kind stored.content_type)
