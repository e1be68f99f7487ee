-- ===== src/Core/Contacts/Tests.antt =====
-- The contacts of crates/meta-text-core/src/ipc/core.rs on a concrete session.
use meta_text.Prelude.{ℕ, refl, List, [], ◌∷◌, none, some, ok, arith}
use meta_text.Prelude.Text.{Text, codes, eq_ignore_ascii_case, to_ascii_lowercase, text_eq}
use meta_text.Net.Peers.Examples.{session}
use meta_text.Core.State.{Contact, CoreService}
use meta_text.Core.Contacts.{has_name, has_id}
use meta_text.Core.Contacts.Book.{IsBook}
use meta_text.Core.Contacts.Requests.{
  Request, adds, accepts, removes, selects, renames, run, run-IsBook,
}

abbrev friend : ℕ → Text → Contact
friend id name = record { id = id; name = name; public_key = name; note = none }

abbrev started : CoreService
started = record {
  nickname = codes "alice";
  status_message = [];
  contacts = friend 7 (codes "Bob") ∷ friend 8 (codes "carol") ∷ [];
  active_chat = some 8;
  groups = [];
  active_group = none;
  statistics = record {
    messages_sent = 0;
    bytes_sent = 0;
    messages_received = 0;
    bytes_received = 0;
  };
  crypto = session;
  max_friends = 3;
  max_message_length = 100;
}

started-IsBook : IsBook started
unfolding has_name has_id eq_ignore_ascii_case to_ascii_lowercase text_eq
started-IsBook = record {
  names = (refl, (refl, tt));
  fits = omega arith;
  active = λ id e. ground arith;
}

abbrev requests : List Request
requests =
    adds 9 (ok none) (codes "BOB") none
    ∷ selects (codes "1")
    ∷ removes (codes "bo")
    ∷ accepts 10 (λ key. ok key) (codes "dave")
    ∷ renames (codes "al")
    ∷ []

run-IsBook_example : IsBook (run (λ bytes. bytes) requests started)
run-IsBook_example = run-IsBook (λ bytes. bytes) requests started started-IsBook
