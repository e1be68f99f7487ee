-- ===== src/Core/State.antt =====
-- The state that `CoreService` keeps in crates/meta-text-core/src/ipc/core.rs, and the parts of its
-- replies, errors and events that the handlers give. A UUID is a number.
use meta_text.Prelude.{ℕ, Bool, List, Option}
use meta_text.Prelude.Text.{Text}
use meta_text.Ipc.Protocol.{ErrorInfo}
use meta_text.Crypto.{CryptoError, CryptoManager}

-- The fields of a contact that the handlers read or write.
pub record Contact : Type 0 where
  pub id : ℕ
  pub name : Text
  pub public_key : List ℕ
  pub note : Option Text

pub record Group : Type 0 where
  pub id : Text
  pub name : Text
  pub members : ℕ
  pub joined : Bool

pub record Statistics : Type 0 where
  pub messages_sent : ℕ
  pub bytes_sent : ℕ
  pub messages_received : ℕ
  pub bytes_received : ℕ

pub record CoreService : Type 0 where
  pub nickname : Text
  pub status_message : Text
  pub contacts : List Contact
  pub active_chat : Option ℕ
  pub groups : List Group
  pub active_group : Option Text
  pub statistics : Statistics
  pub crypto : CryptoManager
  pub max_friends : ℕ
  pub max_message_length : ℕ

pub data CoreError : Type 0 where
  -- a validator's error
  rejected : ErrorInfo → CoreError
  contact_limit : ℕ → CoreError
  target_required public_key_required address_required body_required binary_action : CoreError
  numbers_start_at_one no_active_conversation : CoreError
  no_friend : Text → CoreError
  could_not_request could_not_accept could_not_reject could_not_send : CoreError
  sealing_failed : CryptoError → CoreError
  groups_unsupported group_name_required token_required no_such_group group_failed : CoreError
