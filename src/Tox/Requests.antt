-- ===== src/Tox/Requests.antt =====
-- The pending friend requests of crates/meta-text-backend/src/transport.rs: their arrival
-- (`forward_event`), their refusal and their acceptance. `to_uppercase` of the standard library is the
-- parameter `upper`; the answers of the Tox client are arguments.
pub mod Answers
pub mod Invariant
pub mod Pending
mod Tests
use meta_text.Prelude.{
  ℕ, ◌+◌, ◌%◌, ◌^◌, Bool, true, false, List, [], ◌∷◌, ◌++◌, Option, none, some, Result, ok, err,
  length, any, leb, if◌then◌else◌,
}
use meta_text.Prelude.Text.{Text, trim, text_eq, eq_ignore_ascii_case}
use meta_text.Prelude.Assoc.{insert, number_key}
use meta_text.Hex.{Hex}
use meta_text.Tox.State.{
  PeerRequest, FriendEntry, ToxTransport, pending_requests_capacity, fetch_add, persist,
}

pub data RequestError : Type 0 where
  no_pending_request : Text → RequestError
  tox_refused : RequestError

-- whether the list was extended, the list, and the count of refusals
pub keep_pending {ℓ} : {A : Type ℓ} → List A → A → ℕ → ℕ → Bool × List A × ℕ
keep_pending list value capacity dropped =
    if leb capacity (length list)
    then (false, list, fetch_add dropped 1)
    else (true, list ++ value ∷ [], dropped)

abbrev pub has_key : Text → PeerRequest → Bool
has_key key request = eq_ignore_ascii_case request.public_key key

abbrev pub is_pending : Text → List PeerRequest → Bool
is_pending key requests = any (has_key key) requests

-- `position` of the first match and `remove` at it: the removed key, and the rest
pub remove_first : Text → List PeerRequest → Option (Text × List PeerRequest)
remove_first key [] = none
remove_first key (r ∷ requests) =
    let later = remove_first key requests in
    if has_key key r
    then some (r.public_key, requests)
    else elim later [ none ↦ none | some (found, rest) ↦ some (found, r ∷ rest) ]

-- `find`
pub find_key : Text → List PeerRequest → Option Text
find_key key [] = none
find_key key (r ∷ requests) = if has_key key r then some r.public_key else find_key key requests

-- `retain(|request| !request.public_key.eq_ignore_ascii_case(&key))`
pub without : Text → List PeerRequest → List PeerRequest
without key [] = []
without key (r ∷ requests) =
    let rest = without key requests in if has_key key r then rest else r ∷ rest

pub remember_desired : Text → List Text → List Text
remember_desired identifier desired =
    if any (λ entry. text_eq entry identifier) desired then desired else desired ++ identifier ∷ []

pub store_friends : List (ℕ × FriendEntry) → List (ℕ × FriendEntry) → List (ℕ × FriendEntry)
store_friends table [] = table
store_friends table ((n, friend) ∷ friends) = store_friends (insert n friend table) friends

module _ (hex : Hex) (upper : Text → Text) where
  kept_request : Bool → Bool × List PeerRequest × ℕ → ToxTransport → ToxTransport
  kept_request published (kept, requests, dropped) t =
      let t' : ToxTransport = record t { requests = requests; dropped_requests = dropped } in
      if kept then persist hex published t' else t'

  -- `ToxEvent::FriendRequest` in `forward_event`
  pub friend_request : Bool → PeerRequest → ToxTransport → ToxTransport
  unfolding keep_pending kept_request
  friend_request published request t =
      if is_pending request.public_key t.requests
      then t
      else kept_request published
          (keep_pending t.requests request pending_requests_capacity t.dropped_requests) t

  pub reject_request : Bool → Text → ToxTransport → Result RequestError Text × ToxTransport
  unfolding remove_first
  reject_request published public_key t = elim (remove_first (upper (trim public_key)) t.requests) [
    | none ↦ (err (no_pending_request public_key), t)
    | some (removed, rest) ↦ (ok removed, persist hex published (record t { requests = rest }))
  ]

  -- The client's answers are whether the accept succeeded, and the friends of the snapshot after it.
  pub accept_request :
      Bool
      → Bool
      → Option (List (ℕ × FriendEntry))
      → Text
      → ToxTransport
      → Result RequestError Text × ToxTransport
  unfolding find_key without remember_desired store_friends
  accept_request published accepted snapshot public_key t =
      elim (find_key (upper (trim public_key)) t.requests) [
        | none ↦ (err (no_pending_request public_key), t)
        | some key ↦
            let answered = persist hex published (record t { requests = without key t.requests }) in
            let wanted : ToxTransport = record answered {
              desired = remember_desired key answered.desired;
            } in
            let friends : List (ℕ × FriendEntry) = elim snapshot [
              | none ↦ wanted.friends
              | some listed ↦ store_friends [] listed
            ] in
            if accepted then (ok key, record wanted { friends = friends }) else (err tox_refused, t)
      ]
