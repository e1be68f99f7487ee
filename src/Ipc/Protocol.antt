-- ===== src/Ipc/Protocol.antt =====
-- crates/meta-text-proto/src/ipc/protocol.rs: the limits, the protocol window and the errors that
-- cross the boundary. An error's message is kept in the parts that `format!` joins.
use Prim.Native.String.{String}
use meta_text.Prelude.{
  ℕ, Bool, true, false, not, ◌&&◌, ◌||◌, List, [], ◌∷◌, any, leb, ◌==◌, if◌then◌else◌,
}
use meta_text.Prelude.Text.{Text, is_control}

abbrev pub protocol_version : ℕ
protocol_version = 9

abbrev pub min_supported_protocol_version : ℕ
min_supported_protocol_version = 3

abbrev pub max_nickname_len : ℕ
max_nickname_len = 64

abbrev pub max_status_len : ℕ
max_status_len = 256

abbrev pub max_identifier_len : ℕ
max_identifier_len = 128

abbrev pub max_note_len : ℕ
max_note_len = 256

abbrev pub default_history_limit : ℕ
default_history_limit = 20

abbrev pub max_history_limit : ℕ
max_history_limit = 1000

abbrev pub allowed_message_controls : List ℕ
allowed_message_controls = b'\n' ∷ b'\t' ∷ []

unfoldable pub is_supported_protocol : ℕ → Bool
is_supported_protocol version =
    leb min_supported_protocol_version version && leb version protocol_version

-- `allowed.contains(&c)`
abbrev pub elem : ℕ → List ℕ → Bool
elem c [] = false
elem c (d ∷ ds) = c == d || elem c ds

unfoldable pub contains_forbidden_control : Text → List ℕ → Bool
contains_forbidden_control value allowed = any (λ c. is_control c && not (elem c allowed)) value

pub data ErrorCode : Type 0 where
  invalid_request not_found network cryptography database configuration unauthorized : ErrorCode
  unsupported_protocol backpressure timeout internal : ErrorCode

unfoldable pub is_critical : ErrorCode → Bool
is_critical internal = true
is_critical _ = false

pub data Severity : Type 0 where
  info recoverable critical : Severity

pub data Message : Type 0 where
  plain : String → Message
  -- `"{field} {reason}"`
  field : String → String → Message
  -- `"{field} is {length} {unit}, the limit is {limit}"`
  too_long : String → ℕ → String → ℕ → Message
  -- text of the program around a value
  about : String → Text → Message
  about_number : String → ℕ → Message

pub record ErrorInfo : Type 0 where
  pub code : ErrorCode
  pub severity : Severity
  pub message : Message

unfoldable pub error_info : ErrorCode → Message → ErrorInfo
unfolding is_critical
error_info code message = record {
  code = code;
  severity = if is_critical code then critical else recoverable;
  message = message;
}
