-- ===== src/Core/Contacts.antt =====
-- The contacts and the conversation in use, in crates/meta-text-core/src/ipc/core.rs. What the transport
-- answers is an argument; writing the session and the database does not change the state.
pub mod Book
pub mod Requests
mod Tests
use meta_text.Prelude.{
  ℕ, zero, suc, ◌+◌, ◌-◌, ◌==◌, Bool, true, false, ◌||◌, List, [], ◌∷◌, ◌++◌, Option, none, some,
  Result, ok, err, length, any, leb, ltb, if◌then◌else◌,
}
use meta_text.Prelude.Text.{
  Text, is_empty, trim, text_eq, as_bytes, contains, to_ascii_lowercase, eq_ignore_ascii_case,
  parse_usize,
}
use meta_text.Ipc.Validation.{identifier, note, nickname, status}
use meta_text.Core.State.{
  Contact, CoreService, CoreError, rejected, contact_limit, target_required, public_key_required,
  numbers_start_at_one, no_friend, could_not_request, could_not_accept, could_not_reject,
}

pub data Reply : Type 0 where
  contact_exists : Text → Reply
  -- the number from one, and the identifier
  contact_added : ℕ → Text → Reply
  contact_removed : ℕ → Text → Reply
  peer_request_accepted peer_request_rejected : Text → Reply
  conversation : Option Text → Option ℕ → Reply
  -- the subject's new value
  updated : Text → Reply

pub friend_limit_error : CoreService → Option CoreError
friend_limit_error s =
    if leb s.max_friends (length s.contacts) then some (contact_limit s.max_friends) else none

-- `position` of the first contact that passes the test
unfoldable pub position : (Contact → Bool) → List Contact → Option ℕ
position test [] = none
position test (c ∷ contacts) =
    let later = position test contacts in
    if test c then some 0 else elim later [ none ↦ none | some i ↦ some (i + 1) ]

unfoldable pub nth : ℕ → List Contact → Option Contact
nth i [] = none
nth zero (c ∷ contacts) = some c
nth (suc i) (c ∷ contacts) = nth i contacts

-- `Vec::remove` of an index that is in range
unfoldable pub remove_at : ℕ → List Contact → List Contact
remove_at i [] = []
remove_at zero (c ∷ contacts) = contacts
remove_at (suc i) (c ∷ contacts) = c ∷ remove_at i contacts

-- `index.checked_sub(1)` within the list
numbered : ℕ → ℕ → Option ℕ
numbered zero count = none
numbered (suc i) count = if ltb i count then some i else none

has_fragment : Text → Contact → Bool
has_fragment lowered c = contains lowered (to_ascii_lowercase c.name)

pub find_contact_index : List Contact → Text → Option ℕ
unfolding numbered has_fragment
find_contact_index contacts target = elim (parse_usize target) [
  | some index ↦ numbered index (length contacts)
  | none ↦ position (has_fragment (to_ascii_lowercase target)) contacts
]

-- the check of `add_contact`; the key is decoded as `from_utf8_lossy` does
pub is_duplicate : (List ℕ → Text) → Text → Contact → Bool
is_duplicate from_utf8_lossy identifier c =
    eq_ignore_ascii_case (from_utf8_lossy c.public_key) identifier
    || eq_ignore_ascii_case c.name identifier

pub has_name : Text → Contact → Bool
has_name identifier c = eq_ignore_ascii_case c.name identifier

module _ (from_utf8_lossy : List ℕ → Text) where
  -- `answer`: what `request_peer` gives where the transport has friend requests; `id` is the new UUID
  pub add_contact :
      ℕ
      → Result Unit (Option (List ℕ))
      → Text
      → Option Text
      → CoreService
      → Result CoreError Reply × CoreService
  unfolding friend_limit_error is_duplicate
  add_contact id answer given_identifier given_note s = elim (identifier given_identifier) [
    | err e ↦ (err (rejected e), s)
    | ok name ↦ elim (note given_note) [
      | err e ↦ (err (rejected e), s)
      | ok kept_note ↦ elim (friend_limit_error s) [
        | some e ↦ (err e, s)
        | none ↦
            if any (is_duplicate from_utf8_lossy name) s.contacts
            then (ok (contact_exists name), s)
            else elim answer [
              | err e ↦ (err could_not_request, s)
              | ok announced ↦
                  let contact : Contact = record {
                    id = id;
                    name = name;
                    public_key = elim announced [ none ↦ as_bytes name | some key ↦ key ];
                    note = kept_note;
                  } in
                  let contacts = s.contacts ++ contact ∷ [] in
                  (ok (contact_added (length contacts) name), record s { contacts = contacts })
            ]
      ]
    ]
  ]

-- `accept`: what the transport gives for a key that is pending
pub accept_request :
    ℕ → (Text → Result Unit Text) → Text → CoreService → Result CoreError Reply × CoreService
unfolding friend_limit_error has_name
accept_request id accept public_key s =
    let key = trim public_key in
    let limit = friend_limit_error s in
    let answered = elim (accept key) as (λ r. Result CoreError Reply × CoreService) [
      | err e ↦ (err could_not_accept, s)
      | ok accepted ↦ elim (identifier accepted) [
        | err e ↦ (err (rejected e), s)
        | ok name ↦
            let contact : Contact = record {
              id = id;
              name = name;
              public_key = as_bytes name;
              note = none;
            } in
            let extended : CoreService = record s { contacts = s.contacts ++ contact ∷ [] } in
            (
              ok (peer_request_accepted accepted),
              if any (has_name name) s.contacts then s else extended,
            )
      ]
    ] in
    if is_empty key
    then (err public_key_required, s)
    else elim limit [ some e ↦ (err e, s) | none ↦ answered ]

pub reject_request :
    (Text → Result Unit Text) → Text → CoreService → Result CoreError Reply × CoreService
reject_request reject public_key s =
    if is_empty (trim public_key)
    then (err public_key_required, s)
    else elim (reject (trim public_key)) [
      | err e ↦ (err could_not_reject, s)
      | ok key ↦ (ok (peer_request_rejected key), s)
    ]

-- `self.active_chat == Some(id)`
is_active : ℕ → Option ℕ → Bool
is_active id none = false
is_active id (some active) = active == id

pub remove_contact : Text → CoreService → Result CoreError Reply × CoreService
unfolding is_active
remove_contact given s =
    let target = trim given in
    if is_empty target
    then (err target_required, s)
    else elim (find_contact_index s.contacts target) [
      | none ↦ (err (no_friend target), s)
      | some index ↦ elim (nth index s.contacts) [
        | none ↦ (err (no_friend target), s)
        | some removed ↦ (
          ok (contact_removed (index + 1) removed.name),
          record s {
            contacts = remove_at index s.contacts;
            active_chat = if is_active removed.id s.active_chat then none else s.active_chat;
          },
        )
      ]
    ]

pub has_id : ℕ → Contact → Bool
has_id id c = c.id == id

pub active_conversation : CoreService → Option Text × Option ℕ
unfolding has_id
active_conversation s = elim s.active_chat [
  | none ↦ (none, none)
  | some id ↦ elim (position (has_id id) s.contacts) [
    | none ↦ (none, none)
    | some index ↦ elim (nth index s.contacts) [
      | none ↦ (none, none)
      | some c ↦ (some c.name, some (index + 1))
    ]
  ]
]

-- a number that is 0 is refused before the search
is_zero : Option ℕ → Bool
is_zero none = false
is_zero (some index) = index == 0

pub select_conversation : Text → CoreService → Result CoreError Reply × CoreService
unfolding active_conversation is_zero
select_conversation given s =
    let target = trim given in
    let (active, index) = active_conversation s in
    if is_empty target
    then (ok (conversation active index), s)
    else if is_zero (parse_usize target)
    then (err numbers_start_at_one, s)
    else elim (find_contact_index s.contacts target) [
      | none ↦ (err (no_friend target), s)
      | some index ↦ elim (nth index s.contacts) [
        | none ↦ (err (no_friend target), s)
        | some c ↦ (
          ok (conversation (some c.name) (some (index + 1))),
          record s { active_chat = some c.id },
        )
      ]
    ]

-- An empty name asks for the current one. The events are those published; the transport is told too.
pub set_nickname : Text → CoreService → Result CoreError Reply × List Text × CoreService
set_nickname given s =
    if is_empty (trim given)
    then (ok (updated s.nickname), [], s)
    else elim (nickname (trim given)) [
      | err e ↦ (err (rejected e), [], s)
      | ok name ↦ (ok (updated name), name ∷ [], record s { nickname = name })
    ]

pub set_status : Text → CoreService → Result CoreError Reply × List Text × CoreService
set_status given s =
    if is_empty (trim given)
    then (ok (updated s.status_message), [], s)
    else elim (status (trim given)) [
      | err e ↦ (err (rejected e), [], s)
      | ok text ↦ (ok (updated text), text ∷ [], record s { status_message = text })
    ]
