-- ===== src/Core/Messages/Tests.antt =====
-- Messages of crates/meta-text-core/src/ipc/core.rs between two concrete sessions.
use meta_text.Prelude.{ℕ, List, [], ◌∷◌, Option, none, some, ok, true, false}
use meta_text.Prelude.Text.{Text}
use meta_text.Prelude.Text.Utf8.{from_utf8}
use meta_text.Crypto.Plain.{repeated}
use meta_text.Net.Peers.{SendOutcome}
use meta_text.Net.Peers.Examples.{session}
use meta_text.Core.State.{CoreService}
use meta_text.Core.Messages.{Outgoing}

abbrev or_empty : Option Text → Text
or_empty none = []
or_empty (some s) = s

abbrev over_tcp : Outgoing
over_tcp = record {
  provides_encryption = false;
  contact_key = λ name. some (repeated 32 9);
  Transport = List (List ℕ);
  send_payload =
      λ name payload kind content_type net. (ok (SendOutcome.queued 41 1), payload ∷ net);
  uuid = λ id. [];
  lossy = λ bytes. or_empty (from_utf8 bytes);
  persistent = true;
  saved = true;
}

abbrev core : Text → CoreService
core name = record {
  nickname = name;
  status_message = [];
  contacts = [];
  active_chat = none;
  groups = [];
  active_group = none;
  statistics = record {
    messages_sent = 0;
    bytes_sent = 0;
    messages_received = 0;
    bytes_received = 0;
  };
  crypto = session;
  max_friends = 3;
  max_message_length = 100;
}
