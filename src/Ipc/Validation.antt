-- ===== src/Ipc/Validation.antt =====
-- crates/meta-text-proto/src/ipc/validation.rs: every value that enters the core from a front-end.
pub mod Labels
pub mod Bodies
mod Tests
use Prim.Native.String.{String}
use meta_text.Prelude.{
  ℕ, ◌%◌, List, [], Option, none, some, Result, ok, err, any, length, ltb, ◌==◌, if◌then◌else◌,
}
use meta_text.Prelude.Text.{Text, is_empty, is_whitespace, trim, utf8_len}
use meta_text.Hex.{Hex}
use meta_text.Ipc.Protocol.{
  ErrorInfo, error_info, invalid_request, Message, field, too_long, contains_forbidden_control,
  allowed_message_controls, max_nickname_len, max_status_len, max_identifier_len, max_note_len,
}

pub invalid : Message → ErrorInfo
invalid message = error_info invalid_request message

no_controls : String → ErrorInfo
unfolding invalid
no_controls name = invalid (field name "must not contain control characters")

cannot_be_empty : String → ErrorInfo
unfolding invalid
cannot_be_empty name = invalid (field name "cannot be empty")

unfoldable pub nickname : Text → Result ErrorInfo Text
unfolding no_controls cannot_be_empty
nickname value =
    let trimmed = trim value in
    let count = length trimmed in
    if is_empty trimmed
    then err (cannot_be_empty "nickname")
    else if ltb max_nickname_len count
    then err (invalid (too_long "nickname" count "characters" max_nickname_len))
    else if contains_forbidden_control trimmed []
    then err (no_controls "nickname")
    else ok trimmed

-- `Result::ok`
abbrev pub accepted {ℓ} : {E A : Type ℓ} → Result E A → Option A
accepted (ok a) = some a
accepted (err e) = none

unfoldable pub peer_label : Text → Option Text
peer_label value = accepted (nickname value)

pub status : Text → Result ErrorInfo Text
unfolding no_controls
status value =
    let trimmed = trim value in
    let count = length trimmed in
    if ltb max_status_len count
    then err (invalid (too_long "status message" count "characters" max_status_len))
    else if contains_forbidden_control trimmed []
    then err (no_controls "status message")
    else ok trimmed

pub identifier : Text → Result ErrorInfo Text
unfolding no_controls cannot_be_empty
identifier value =
    let trimmed = trim value in
    let count = length trimmed in
    if is_empty trimmed
    then err (cannot_be_empty "contact identifier")
    else if ltb max_identifier_len count
    then err (invalid (too_long "contact identifier" count "characters" max_identifier_len))
    else if any is_whitespace trimmed
    then err (invalid (field "contact identifier" "must not contain whitespace"))
    else if contains_forbidden_control trimmed []
    then err (no_controls "contact identifier")
    else ok trimmed

pub note : Option Text → Result ErrorInfo (Option Text)
unfolding no_controls
note none = ok none
note (some value) =
    let trimmed = trim value in
    let count = length trimmed in
    if is_empty trimmed
    then ok none
    else if ltb max_note_len count
    then err (invalid (too_long "contact note" count "characters" max_note_len))
    else if contains_forbidden_control trimmed []
    then err (no_controls "contact note")
    else ok (some trimmed)

pub message : Text → ℕ → Result ErrorInfo Text
unfolding no_controls cannot_be_empty
message value max_length =
    let count = length value in
    if is_empty (trim value)
    then err (cannot_be_empty "message")
    else if ltb max_length count
    then err (invalid (too_long "message" count "characters" max_length))
    else if contains_forbidden_control value allowed_message_controls
    then err (no_controls "message")
    else ok value

abbrev pub max_group_name_len : ℕ
max_group_name_len = 32

pub group_name : Text → Result ErrorInfo Text
unfolding no_controls
group_name value =
    let trimmed = trim value in
    let count = length trimmed in
    if ltb max_group_name_len count
    then err (invalid (too_long "group name" count "characters" max_group_name_len))
    else if contains_forbidden_control trimmed []
    then err (no_controls "group name")
    else ok trimmed

module _ (hex : Hex) where
  binary_body : Option (List ℕ) → ℕ → Result ErrorInfo (List ℕ)
  unfolding invalid
  binary_body none max_length = err (invalid (field "binary body" "must be hexadecimal (0-9, a-f)"))
  binary_body (some bytes) max_length =
      let count = length bytes in
      if ltb max_length count
      then err (invalid (too_long "binary body" count "bytes" max_length))
      else ok bytes

  pub binary : Text → ℕ → Result ErrorInfo (List ℕ)
  unfolding binary_body cannot_be_empty
  binary value max_length =
      let trimmed = trim value in
      if is_empty trimmed
      then err (cannot_be_empty "binary body")
      else if utf8_len trimmed % 2 == 0
      then binary_body (hex.decode trimmed) max_length
      else err (invalid (field "binary body" "must have an even number of hexadecimal digits"))
