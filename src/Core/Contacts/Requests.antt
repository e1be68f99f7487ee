-- ===== src/Core/Contacts/Requests.antt =====
-- The requests on contacts, one after another, in crates/meta-text-core/src/ipc/core.rs.
use meta_text.Prelude.{
  ℕ, ◌≡◌, refl, true, false, inl, inr, List, [], ◌∷◌, Option, none, some, Result, any, arith,
  Bool-cases, Option-cases, Result-cases, if◌then◌else◌,
}
use meta_text.Prelude.Text.{Text, is_empty, trim, parse_usize}
use meta_text.Ipc.Validation.{identifier, note, nickname, status}
use meta_text.Core.State.{Contact, CoreService}
use meta_text.Core.Contacts.{
  friend_limit_error, has_name, has_id, is_duplicate, is_active, nth, remove_at, find_contact_index,
  add_contact, accept_request, remove_contact, select_conversation, set_nickname, set_status,
  is_zero,
}
use meta_text.Core.Contacts.Book.{
  IsBook, add-IsBook, any-nth, any-remove_other, remove_at-NamesDiffer, length-remove_at,
}

any_duplicate :
    (decode : List ℕ → Text) (name : Text) (contacts : List Contact)
    → any (is_duplicate decode name) contacts ≡ false
    → any (has_name name) contacts ≡ false
unfolding is_duplicate has_name
any_duplicate decode name [] e = refl
any_duplicate decode name (c ∷ contacts) e = ground (arith, any_duplicate decode name contacts)

add_contact-IsBook :
    (decode : List ℕ → Text) (id : ℕ) (answer : Result Unit (Option (List ℕ))) (given : Text)
    (given_note : Option Text) (s : CoreService)
    → IsBook s
    → IsBook (add_contact decode id answer given given_note s).1
unfolding add_contact
add_contact-IsBook decode id answer given given_note s book =
    elim (Result-cases (identifier given)) [
      | inl (e, h) ↦ rw (add_contact, h) book
      | inr (name, h) ↦ elim (Result-cases (note given_note)) [
        | inl (e, k) ↦ rw (add_contact, h, k) book
        | inr (kept_note, k) ↦ elim (Option-cases (friend_limit_error s)) [
          | inr (e, full) ↦ rw (add_contact, h, k, full) book
          | inl room ↦ elim (Bool-cases (any (is_duplicate decode name) s.contacts)) [
            | inl known ↦ rw (add_contact, h, k, room, known) book
            | inr new ↦ elim (Result-cases answer) [
              | inl (e, refused) ↦ rw (add_contact, h, k, room, new, refused) book
              | inr (announced, sent) ↦
                  rw (add_contact, h, k, room, new, sent)
                    (add-IsBook s _ book (any_duplicate decode name s.contacts new) room)
            ]
          ]
        ]
      ]
    ]

accept_request-IsBook :
    (id : ℕ) (accept : Text → Result Unit Text) (public_key : Text) (s : CoreService)
    → IsBook s
    → IsBook (accept_request id accept public_key s).1
unfolding accept_request
accept_request-IsBook id accept public_key s book = elim (Bool-cases (is_empty (trim public_key))) [
  | inl blank ↦ rw (accept_request, blank) book
  | inr given ↦ elim (Option-cases (friend_limit_error s)) [
    | inr (e, full) ↦ rw (accept_request, given, full) book
    | inl room ↦ elim (Result-cases (accept (trim public_key))) [
      | inl (e, refused) ↦ rw (accept_request, given, room, refused) book
      | inr (accepted, h) ↦ elim (Result-cases (identifier accepted)) [
        | inl (e, k) ↦ rw (accept_request, given, room, h, k) book
        | inr (name, k) ↦ elim (Bool-cases (any (has_name name) s.contacts)) [
          | inl known ↦ rw (accept_request, given, room, h, k, known) book
          | inr new ↦ rw (accept_request, given, room, h, k, new) (add-IsBook s _ book new room)
        ]
      ]
    ]
  ]
]

-- The active conversation is still with a contact when another one is removed.
active_survives :
    (s : CoreService) (book : IsBook s) (index : ℕ) (removed : Contact) (id : ℕ)
    → nth index s.contacts ≡ some removed
    → (if is_active removed.id s.active_chat then none else s.active_chat) ≡ some id
    → any (has_id id) (remove_at index s.contacts) ≡ true
unfolding is_active has_id
active_survives s book index removed id k e = elim (Option-cases s.active_chat) [
  | inl idle ↦ ground (arith, idle)
  | inr (active, is) ↦
      any-remove_other (has_id id) index s.contacts removed k (ground (arith, is))
        (book.active id (ground (arith, is)))
]

remove_contact-IsBook :
    (given : Text) (s : CoreService) → IsBook s → IsBook (remove_contact given s).1
unfolding remove_contact
remove_contact-IsBook given s book = elim (Bool-cases (is_empty (trim given))) [
  | inl blank ↦ rw (remove_contact, blank) book
  | inr asked ↦ elim (Option-cases (find_contact_index s.contacts (trim given))) [
    | inl h ↦ rw (remove_contact, asked, h) book
    | inr (index, h) ↦ elim (Option-cases (nth index s.contacts)) [
      | inl k ↦ rw (remove_contact, asked, h, k) book
      | inr (removed, k) ↦
          rw (remove_contact, asked, h, k)
            (record {
              names = remove_at-NamesDiffer index s.contacts book.names;
              fits = omega (arith, book.fits, length-remove_at index s.contacts);
              active = λ id e. active_survives s book index removed id k e;
            })
    ]
  ]
]

select_conversation-IsBook :
    (given : Text) (s : CoreService) → IsBook s → IsBook (select_conversation given s).1
unfolding select_conversation has_id
select_conversation-IsBook given s book = elim (Bool-cases (is_empty (trim given))) [
  | inl blank ↦ rw (select_conversation, blank) book
  | inr asked ↦ elim (Bool-cases (is_zero (parse_usize (trim given)))) [
    | inl h ↦ rw (select_conversation, asked, h) book
    | inr nonzero ↦ elim (Option-cases (find_contact_index s.contacts (trim given))) [
      | inl h ↦ rw (select_conversation, asked, nonzero, h) book
      | inr (index, h) ↦ elim (Option-cases (nth index s.contacts)) [
        | inl k ↦ rw (select_conversation, asked, nonzero, h, k) book
        | inr (c, k) ↦
            rw (select_conversation, asked, nonzero, h, k)
              (record {
                names = book.names;
                fits = book.fits;
                active = λ id e. any-nth (has_id id) index s.contacts c k (ground arith);
              })
      ]
    ]
  ]
]

set_nickname-IsBook : (given : Text) (s : CoreService) → IsBook s → IsBook (set_nickname given s).2
unfolding set_nickname
set_nickname-IsBook given s book = elim (Bool-cases (is_empty (trim given))) [
  | inl blank ↦ rw (set_nickname, blank) book
  | inr asked ↦ elim (Result-cases (nickname (trim given))) [
    | inl (e, h) ↦ rw (set_nickname, asked, h) book
    | inr (name, h) ↦
        rw (set_nickname, asked, h)
          (record { names = book.names; fits = book.fits; active = book.active })
  ]
]

set_status-IsBook : (given : Text) (s : CoreService) → IsBook s → IsBook (set_status given s).2
unfolding set_status
set_status-IsBook given s book = elim (Bool-cases (is_empty (trim given))) [
  | inl blank ↦ rw (set_status, blank) book
  | inr asked ↦ elim (Result-cases (status (trim given))) [
    | inl (e, h) ↦ rw (set_status, asked, h) book
    | inr (text, h) ↦
        rw (set_status, asked, h)
          (record { names = book.names; fits = book.fits; active = book.active })
  ]
]

-- A request, with the answers of the transport and the new UUID where it needs them.
pub data Request : Type 0 where
  adds : ℕ → Result Unit (Option (List ℕ)) → Text → Option Text → Request
  accepts : ℕ → (Text → Result Unit Text) → Text → Request
  removes selects renames sets_status : Text → Request

pub after : (List ℕ → Text) → Request → CoreService → CoreService
after decode (adds id answer given given_note) s =
    (add_contact decode id answer given given_note s).1
after decode (accepts id accept public_key) s = (accept_request id accept public_key s).1
after decode (removes given) s = (remove_contact given s).1
after decode (selects given) s = (select_conversation given s).1
after decode (renames given) s = (set_nickname given s).2
after decode (sets_status given) s = (set_status given s).2

pub run : (List ℕ → Text) → List Request → CoreService → CoreService
unfolding after
run decode [] s = s
run decode (r ∷ requests) s = run decode requests (after decode r s)

after-IsBook :
    (decode : List ℕ → Text) (r : Request) (s : CoreService) → IsBook s → IsBook (after decode r s)
unfolding after
after-IsBook decode (adds id answer given given_note) s book =
    add_contact-IsBook decode id answer given given_note s book
after-IsBook decode (accepts id accept public_key) s book =
    accept_request-IsBook id accept public_key s book
after-IsBook decode (removes given) s book = remove_contact-IsBook given s book
after-IsBook decode (selects given) s book = select_conversation-IsBook given s book
after-IsBook decode (renames given) s book = set_nickname-IsBook given s book
after-IsBook decode (sets_status given) s book = set_status-IsBook given s book

-- A session is in order where its contacts have different names without regard to case, they are at
-- most the configured number, and the active conversation is with one of them. From a session in order,
-- any requests that add, accept, remove and select contacts or set the nickname or the status, whatever
-- the transport answers, lead to a session in order.
pub run-IsBook :
    (decode : List ℕ → Text) (requests : List Request) (s : CoreService)
    → IsBook s
    → IsBook (run decode requests s)
unfolding run
run-IsBook decode [] s book = book
run-IsBook decode (r ∷ requests) s book =
    run-IsBook decode requests (after decode r s) (after-IsBook decode r s book)
