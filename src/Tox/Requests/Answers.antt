-- ===== src/Tox/Requests/Answers.antt =====
-- What the three operations on friend requests do, and the invariant of the list that they share.
use meta_text.Prelude.{
  ℕ, ◌≤◌, ◌≡◌, refl, ap, ◌∙◌, Bool, true, false, not, ◌&&◌, ◌||◌, List, [], ◌∷◌, ◌++◌, Option, none,
  some, Result, ok, err, length, any, leb, Bool-cases, inl, inr, ◌⊎◌, if◌then◌else◌, arith,
}
use meta_text.Prelude.Text.{Text, trim, text_eq, eq_ignore_ascii_case}
use meta_text.Prelude.Text.Case.{eq_ignore_ascii_case_refl, text_eq_refl}
use meta_text.Hex.{Hex}
use meta_text.Tox.State.{
  PeerRequest, FriendEntry, ToxTransport, pending_requests_capacity, fetch_add, persist,
}
use meta_text.Tox.Requests.{
  RequestError, no_pending_request, tox_refused, has_key, is_pending, remove_first, find_key,
  without, keep_pending, kept_request, remember_desired, friend_request, reject_request,
  accept_request,
}
use meta_text.Tox.Requests.Pending.{
  is_pending-append, AllDistinct, is_pending-without, find_key-some, find_key-none, same_key,
  remove_first-without,
}

any-last :
    (key : Text) (desired : List Text)
    → any (λ entry. text_eq entry key) (desired ++ key ∷ []) ≡ true
any-last key [] = ground (arith, text_eq_refl key)
any-last key (d ∷ desired) = ground (arith, any-last key desired)

module _ (hex : Hex) (upper : Text → Text) where
  pub persist-requests :
      (published : Bool) (t : ToxTransport)
      → ((persist hex published t).requests ≡ t.requests)
        × ((persist hex published t).dropped_requests ≡ t.dropped_requests)
        × ((persist hex published t).outbox ≡ t.outbox)
        × ((persist hex published t).desired ≡ t.desired)
  unfolding persist
  persist-requests true t = (refl, refl, refl, refl)
  persist-requests false t = (refl, refl, refl, refl)

  -- where a key that is not pending arrives
  pub new_request :
      (published : Bool) (request : PeerRequest) (t : ToxTransport)
      → is_pending request.public_key t.requests ≡ false
      → let t' = friend_request hex upper published request t in
        let full = leb pending_requests_capacity (length t.requests) in
        (t'.requests ≡ (if full then t.requests else t.requests ++ request ∷ []))
        × (t'.dropped_requests
            ≡ (if full then fetch_add t.dropped_requests 1 else t.dropped_requests))
  unfolding friend_request keep_pending kept_request
  new_request published request t fresh =
      let stored =
        persist-requests published (record t { requests = t.requests ++ request ∷ [] }) in
      ground (arith, fresh, stored)

  -- the request of the arrival, where it was pending before
  pub repeated_request :
      (published : Bool) (request : PeerRequest) (t : ToxTransport)
      → is_pending request.public_key t.requests ≡ true
      → friend_request hex upper published request t ≡ t
  unfolding friend_request
  repeated_request published request t pending = rw (pending) refl

  -- what the arrival of a request does to what is pending
  abbrev pub Arrived : PeerRequest → ToxTransport → ToxTransport → Type 0
  Arrived request t t' =
      ((is_pending request.public_key t'.requests ≡ true)
        ⊎ (pending_requests_capacity ≤ length t.requests)
          × (t'.dropped_requests ≡ fetch_add t.dropped_requests 1))
      × ((j : Text) → is_pending j t.requests ≡ true → is_pending j t'.requests ≡ true)
      × ((j : Text)
          → is_pending j t'.requests ≡ true
          → is_pending j t.requests || has_key j request ≡ true)

  -- A friend request that arrives is pending afterwards, or 128 requests wait already and the count of
  -- refusals is one higher; every request that was pending is pending afterwards, and nothing else than
  -- the request becomes pending.
  pub friend_request-pending :
      (published : Bool) (request : PeerRequest) (t : ToxTransport)
      → Arrived request t (friend_request hex upper published request t)
  friend_request-pending published request t =
      let old = t.requests in
      elim (Bool-cases (is_pending request.public_key old)) [
        | inl pending ↦
            rw (repeated_request published request t pending)
              (inl pending, λ j e. e, λ j e. ground (arith, e))
        | inr fresh ↦
            let (requests, dropped) = new_request published request t fresh in
            let grown = λ (j : Text). is_pending-append j old request in
            (
              ground (
                arith,
                requests,
                dropped,
                grown request.public_key,
                eq_ignore_ascii_case_refl request.public_key,
              ),
              λ j e. ground (arith, requests, grown j, e),
              λ j e. ground (arith, requests, grown j, e),
            )
      ]

  -- What `reject_request` may give: an error without any change, or the removal of the wanted request.
  abbrev pub Rejected : Text → ToxTransport → Result RequestError Text × ToxTransport → Type 0
  Rejected public_key t result =
      let wanted = upper (trim public_key) in
      ((is_pending wanted t.requests ≡ false) × (result ≡ (err (no_pending_request public_key), t)))
      ⊎ (is_pending wanted t.requests ≡ true)
        × ((removed : Text) × (result.0 ≡ ok removed)
            × (eq_ignore_ascii_case removed wanted ≡ true))
        × ((j : Text)
            → is_pending j result.1.requests
              ≡ is_pending j t.requests && not (eq_ignore_ascii_case j wanted))

  reject_found :
      (published : Bool) (public_key : Text) (t : ToxTransport)
      → AllDistinct t.requests
      → (found : Option Text) → find_key (upper (trim public_key)) t.requests ≡ found
      → Rejected public_key t (reject_request hex upper published public_key t)
  unfolding reject_request
  reject_found published public_key t d none e =
      let wanted = upper (trim public_key) in
      let removed : remove_first wanted t.requests ≡ none =
        remove_first-without wanted t.requests d ∙ rw (e) refl in
      inl (find_key-none wanted t.requests e, rw (reject_request, removed) refl)
  reject_found published public_key t d (some found) e =
      let wanted = upper (trim public_key) in
      let rest = without wanted t.requests in
      let removed : remove_first wanted t.requests ≡ some (found, rest) =
        remove_first-without wanted t.requests d ∙ rw (e) refl in
      let (pending, same) = find_key-some wanted t.requests found e in
      let stored = (persist-requests published (record t { requests = rest })).0 in
      rw (reject_request, removed)
        (inr (
          pending,
          (found, refl, same),
          λ j. ap (is_pending j) stored ∙ is_pending-without j wanted t.requests,
        ))

  -- `reject_request` for a key k, read without its outer white space and in upper case. Where no pending
  -- request has that key up to ASCII case, it is an error and nothing changes. Otherwise the key that it
  -- gives is k up to case, k is no longer pending, and what is pending of the other keys stays; the
  -- requests are supposed to have distinct keys.
  pub reject_request-verdict :
      (published : Bool) (public_key : Text) (t : ToxTransport)
      → AllDistinct t.requests
      → Rejected public_key t (reject_request hex upper published public_key t)
  reject_request-verdict published public_key t d =
      reject_found published public_key t d (find_key (upper (trim public_key)) t.requests) refl

  -- What `accept_request` may give: an error without any change, since nothing is pending or the client
  -- refused, or the removal of the wanted request, whose key is then among the desired peers.
  abbrev pub Accepted :
      Bool → Text → ToxTransport → Result RequestError Text × ToxTransport → Type 0
  Accepted accepted public_key t result =
      let wanted = upper (trim public_key) in
      ((is_pending wanted t.requests ≡ false) × (result ≡ (err (no_pending_request public_key), t)))
      ⊎ (is_pending wanted t.requests ≡ true)
        × (if accepted
            then (((key : Text) × (result.0 ≡ ok key)
                  × (eq_ignore_ascii_case key wanted ≡ true)
                  × (any (λ entry. text_eq entry key) result.1.desired ≡ true))
                × ((j : Text)
                    → is_pending j result.1.requests
                      ≡ is_pending j t.requests && not (eq_ignore_ascii_case j wanted)))
            else (result ≡ (err tox_refused, t)))

  remember_desired-any :
      (key : Text) (desired : List Text)
      → any (λ entry. text_eq entry key) (remember_desired key desired) ≡ true
  unfolding remember_desired
  remember_desired-any key desired =
      elim (Bool-cases (any (λ (entry : Text). text_eq entry key) desired)) [
        | inl known ↦ rw (known) known
        | inr fresh ↦ rw (fresh) (any-last key desired)
      ]

  accept_found :
      (published accepted : Bool) (snapshot : Option (List (ℕ × FriendEntry))) (public_key : Text)
      (t : ToxTransport)
      → (found : Option Text) → find_key (upper (trim public_key)) t.requests ≡ found
      → Accepted accepted public_key t
          (accept_request hex upper published accepted snapshot public_key t)
  unfolding accept_request
  accept_found published accepted snapshot public_key t none e =
      inl (find_key-none (upper (trim public_key)) t.requests e, rw (accept_request, e) refl)
  accept_found published false snapshot public_key t (some key) e =
      let (pending, same) = find_key-some (upper (trim public_key)) t.requests key e in
      inr (pending, rw (accept_request, e) refl)
  accept_found published true snapshot public_key t (some key) e =
      let wanted = upper (trim public_key) in
      let (pending, same) = find_key-some wanted t.requests key e in
      let rest = without key t.requests in
      let stored = (persist-requests published (record t { requests = rest })).0 in
      let answered = persist hex published (record t { requests = rest }) in
      rw (accept_request, e)
        (inr (
          pending,
          (
            (key, refl, same, remember_desired-any key answered.desired),
            λ j.
                ap (is_pending j) stored
                ∙ is_pending-without j key t.requests
                ∙ ap (λ x. is_pending j t.requests && not x) (same_key key wanted j same).0,
          ),
        ))

  -- `accept_request` for a key k, read without its outer white space and in upper case. Where no pending
  -- request has that key up to ASCII case, or the client refuses, it is an error and nothing changes.
  -- Otherwise the key that it gives is k up to case and among the desired peers, k is no longer pending,
  -- and what is pending of the other keys stays.
  pub accept_request-verdict :
      (published accepted : Bool) (snapshot : Option (List (ℕ × FriendEntry))) (public_key : Text)
      (t : ToxTransport)
      → Accepted accepted public_key t
          (accept_request hex upper published accepted snapshot public_key t)
  accept_request-verdict published accepted snapshot public_key t =
      accept_found published accepted snapshot public_key t
        (find_key (upper (trim public_key)) t.requests) refl
