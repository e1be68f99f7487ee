-- ===== src/Core/Messages.antt =====
-- The messages of the core service, in crates/meta-text-core/src/ipc/core.rs: `send_message` and the
-- message of `on_app_event`. `String::from_utf8` and the transport's answers are arguments; the database
-- is the record that is written, where it is persistent. The counters wrap, as in a release build.
pub mod Shown
mod Tests
use meta_text.Prelude.{
  ℕ, ◌+◌, ◌==◌, Bool, true, false, not, ◌&&◌, List, [], ◌∷◌, Option, none, some, Result, ok, err,
  length, leb, ltb, if◌then◌else◌, min,
}
use meta_text.Prelude.Text.{Text, is_empty, trim, as_bytes}
use meta_text.Hex.{Hex}
use meta_text.Crypto.{Primitives, CryptoError, encrypt, encrypt_with}
use meta_text.Ipc.Protocol.{
  contains_forbidden_control, allowed_message_controls, max_history_limit, ErrorInfo,
}
use meta_text.Ipc.Validation.{message, binary}
use meta_text.Net.Frame.{MessageKind, ContentType, action}
use meta_text.Net.Peers.{SendOutcome, DeliveryReceipt}
use meta_text.Trust.{fetch_add}
use meta_text.Core.State.{
  Contact, CoreService, CoreError, Statistics, rejected, body_required, binary_action,
  no_active_conversation, could_not_send, sealing_failed,
}

pub data SendOutcomeKind : Type 0 where
  sent queued dropped : SendOutcomeKind

pub record SendReport : Type 0 where
  pub outcome : SendOutcomeKind
  pub message_id : Option ℕ
  pub queued_for : ℕ
  pub queue_position : Option ℕ
  pub wire_bytes : ℕ
  pub encrypted : Bool
  pub persisted : Bool

-- The record that the database keeps of a message.
pub record StoredMessage : Type 0 where
  pub incoming : Bool
  pub peer : Text
  pub body : Text
  pub wire_bytes : ℕ
  pub kind : MessageKind
  pub content_type : ContentType

pub data BodyError : Type 0 where
  not_utf8 control_characters : BodyError

pub data CoreEvent : Type 0 where
  message_undecodable : Text → ℕ → BodyError → CoreEvent
  message_received : Text → Text → ℕ → MessageKind → ContentType → CoreEvent

pub send_report : SendOutcome → ℕ → Bool → Bool → SendReport
send_report (SendOutcome.sent receipt) wire_bytes encrypted persisted = record {
  outcome = sent;
  message_id = some receipt.message_id;
  queued_for = receipt.peers;
  queue_position = none;
  wire_bytes = wire_bytes;
  encrypted = encrypted;
  persisted = persisted;
}
send_report (SendOutcome.queued message_id position) wire_bytes encrypted persisted = record {
  outcome = queued;
  message_id = some message_id;
  queued_for = 0;
  queue_position = some position;
  wire_bytes = wire_bytes;
  encrypted = encrypted;
  persisted = persisted;
}
send_report SendOutcome.dropped wire_bytes encrypted persisted = record {
  outcome = dropped;
  message_id = none;
  queued_for = 0;
  queue_position = none;
  wire_bytes = wire_bytes;
  encrypted = encrypted;
  persisted = persisted;
}

-- the limit of a history request
pub history_limit : Option ℕ → ℕ → ℕ
history_limit requested session_limit =
    let limit = elim requested as (λ x. ℕ) [ none ↦ session_limit | some n ↦ n ] in
    if ltb limit 1 then 1 else min limit max_history_limit

abbrev is_binary : ContentType → Bool
is_binary ContentType.text = false
is_binary ContentType.binary = true

abbrev is_action : MessageKind → Bool
is_action MessageKind.text = false
is_action MessageKind.action = true

module _ (hex : Hex) where
  -- the checked body: the bytes that travel
  pub checked_body : Text → ContentType → ℕ → Result ErrorInfo (List ℕ)
  checked_body text ContentType.text max_length = elim (message text max_length) [
    | err e ↦ err e
    | ok kept ↦ ok (as_bytes kept)
  ]
  checked_body text ContentType.binary max_length = binary hex text max_length

  module _ (from_utf8 : List ℕ → Option Text) where
    pub body_of : List ℕ → ContentType → Result BodyError Text
    body_of payload ContentType.binary = ok (hex.encode payload)
    body_of payload ContentType.text = elim (from_utf8 payload) [
      | none ↦ err not_utf8
      | some text ↦
          if contains_forbidden_control text allowed_message_controls
          then err control_characters
          else ok text
    ]

-- the destination: an explicit name, or the active conversation
first_with : ℕ → List Contact → Text → Text
first_with id [] otherwise = otherwise
first_with id (c ∷ contacts) otherwise =
    let rest = first_with id contacts otherwise in if c.id == id then c.name else rest

-- `uuid`: how an identifier is printed
pub destination_of : (ℕ → Text) → Option Text → CoreService → Option Text
unfolding first_with
destination_of uuid target s =
    let active : Option Text = elim s.active_chat [
      | none ↦ none
      | some id ↦ some (first_with id s.contacts (uuid id))
    ] in
    elim target [
      | none ↦ active
      | some name ↦ if is_empty (trim name) then active else some (trim name)
    ]

-- What the transport offers to a send: whether it encrypts, the key of a pair, and the send itself, with
-- what it answers and what it leaves in the transport.
pub record Outgoing : Type 1 where
  pub Transport : Type 0
  pub provides_encryption : Bool
  pub contact_key : Text → Option (List ℕ)
  pub send_payload :
      Text → List ℕ → MessageKind → ContentType → Transport → Result Unit SendOutcome × Transport
  pub uuid : ℕ → Text
  pub lossy : List ℕ → Text
  pub persistent : Bool
  pub saved : Bool

module _ (hex : Hex) (prims : Primitives) (out : Outgoing) where
  -- the canonical form that is stored and echoed
  pub stored_body : List ℕ → ContentType → Text
  stored_body body ContentType.text = out.lossy body
  stored_body body ContentType.binary = hex.encode body

  -- the payload, and whether it is encrypted; the nonce is the generator's
  pub sealed_payload : List ℕ → Text → List ℕ → CoreService → Result CryptoError (List ℕ × Bool)
  sealed_payload nonce destination body s =
      let under : Result CryptoError (List ℕ) = elim (out.contact_key destination) [
        | some key ↦ encrypt_with prims s.crypto nonce key body
        | none ↦ encrypt prims s.crypto nonce body
      ] in
      if out.provides_encryption
      then ok (body, true)
      else elim under [ err e ↦ err e | ok ciphertext ↦ ok (ciphertext, s.crypto.enabled) ]

  -- the counters after a payload was handed over
  counted : ℕ → CoreService → CoreService
  counted wire_bytes s = record s {
    statistics = record s.statistics {
      messages_sent = fetch_add s.statistics.messages_sent 1;
      bytes_sent = fetch_add s.statistics.bytes_sent wire_bytes;
    };
  }

  -- The reply is the destination and the report; the record is what was written to the database.
  pub send_message :
      List ℕ
      → Option Text
      → Text
      → MessageKind
      → ContentType
      → out.Transport
      → CoreService
      → Result CoreError (Text × SendReport) × Option StoredMessage × out.Transport × CoreService
  unfolding checked_body destination_of stored_body sealed_payload counted send_report
  send_message nonce target given kind content_type net s =
      let text = trim given in
      let handled =
        elim (checked_body hex text content_type s.max_message_length)
          as (λ r.
            Result CoreError (Text × SendReport)
            × Option StoredMessage
            × out.Transport
            × CoreService) [
              | err e ↦ (err (rejected e), none, net, s)
              | ok body ↦ elim (destination_of out.uuid target s) [
                | none ↦ (err no_active_conversation, none, net, s)
                | some destination ↦ elim (sealed_payload nonce destination body s) [
                  | err e ↦ (err (sealing_failed e), none, net, s)
                  | ok (payload, encrypted) ↦
                      let (answer, net') =
                        out.send_payload destination payload kind content_type net in
                      elim answer [
                        | err e ↦ (err could_not_send, none, net', s)
                        | ok outcome ↦
                            let stored : StoredMessage = record {
                              incoming = false;
                              peer = destination;
                              body = stored_body body content_type;
                              wire_bytes = length payload;
                              kind = kind;
                              content_type = content_type;
                            } in
                            (
                              ok (
                                destination,
                                send_report outcome (length payload) encrypted
                                    (out.persistent && out.saved),
                              ),
                              if out.persistent && out.saved then some stored else none,
                              net',
                              counted (length payload) s,
                            )
                      ]
                ]
              ]
            ] in
      if is_empty text
      then (err body_required, none, net, s)
      else if is_binary content_type && is_action kind
      then (err binary_action, none, net, s)
      else handled

module _ (hex : Hex) (from_utf8 : List ℕ → Option Text) where
  -- `AppEvent::MessageReceived`: the event, and the record that is written where the store is persistent
  pub on_message_received :
      Bool
      → Text
      → List ℕ
      → MessageKind
      → ContentType
      → CoreService
      → CoreEvent × Option StoredMessage × CoreService
  unfolding body_of
  on_message_received persistent peer payload kind content_type s =
      let heard : CoreService = record s {
        statistics = record s.statistics {
          messages_received = fetch_add s.statistics.messages_received 1;
          bytes_received = fetch_add s.statistics.bytes_received (length payload);
        };
      } in
      elim (body_of hex from_utf8 payload content_type) [
        | err e ↦ (message_undecodable peer (length payload) e, none, heard)
        | ok body ↦
            let stored : StoredMessage = record {
              incoming = true;
              peer = peer;
              body = body;
              wire_bytes = length payload;
              kind = kind;
              content_type = content_type;
            } in
            (
              message_received peer body (length payload) kind content_type,
              if persistent then some stored else none,
              heard,
            )
      ]
