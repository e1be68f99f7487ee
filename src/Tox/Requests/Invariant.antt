-- ===== src/Tox/Requests/Invariant.antt =====
-- The invariant of the list of pending requests.
use mathlib.Core.Path.{subst}
use meta_text.Prelude.{
  ℕ, ◌≤◌, ◌≡◌, refl, sym, ◌∙◌, Bool, true, false, List, [], ◌∷◌, Option, none, some, length,
  length-append, leb, Bool-cases, inl, inr, arith,
}
use meta_text.Prelude.Text.{Text, trim}
use meta_text.Hex.{Hex}
use meta_text.Tox.State.{PeerRequest, FriendEntry, ToxTransport, pending_requests_capacity}
use meta_text.Tox.Requests.{
  is_pending, remove_first, find_key, without, friend_request, reject_request, accept_request,
}
use meta_text.Tox.Requests.Pending.{
  AllDistinct, append-AllDistinct, without-AllDistinct, length-without, remove_first-without,
}
use meta_text.Tox.Requests.Answers.{persist-requests, new_request, repeated_request}

abbrev pub IsRequestList : List PeerRequest → Type 0
IsRequestList rs = AllDistinct rs × (length rs ≤ pending_requests_capacity)

module _ (hex : Hex) (upper : Text → Text) where
  without-IsRequestList :
      (k : Text) (rs : List PeerRequest) → IsRequestList rs → IsRequestList (without k rs)
  without-IsRequestList k rs (d, short) =
      (without-AllDistinct k rs d, omega (arith, length-without k rs, short))

  friend_request-IsRequestList :
      (published : Bool) (request : PeerRequest) (t : ToxTransport)
      → IsRequestList t.requests
      → IsRequestList (friend_request hex upper published request t).requests
  friend_request-IsRequestList published request t (d, short) =
      elim (Bool-cases (is_pending request.public_key t.requests)) [
        | inl pending ↦ rw (repeated_request hex upper published request t pending) (d, short)
        | inr fresh ↦
            let (requests, dropped) = new_request hex upper published request t fresh in
            elim (Bool-cases (leb pending_requests_capacity (length t.requests))) [
              | inl full ↦ subst IsRequestList (sym (requests ∙ rw (full) refl)) (d, short)
              | inr free ↦ subst IsRequestList (sym (requests ∙ rw (free) refl)) (
                append-AllDistinct t.requests request fresh d,
                ground (arith, free, length-append t.requests (request ∷ [])),
              )
            ]
      ]

  reject-IsRequestList :
      (published : Bool) (public_key : Text) (t : ToxTransport) (found : Option Text)
      → find_key (upper (trim public_key)) t.requests ≡ found
      → IsRequestList t.requests
      → IsRequestList (reject_request hex upper published public_key t).1.requests
  unfolding reject_request
  reject-IsRequestList published public_key t none e (d, short) =
      let wanted = upper (trim public_key) in
      let removed : remove_first wanted t.requests ≡ none =
        remove_first-without wanted t.requests d ∙ rw (e) refl in
      let kept : (reject_request hex upper published public_key t).1.requests ≡ t.requests =
        rw (reject_request, removed) refl in
      subst IsRequestList (sym kept) (d, short)
  reject-IsRequestList published public_key t (some found) e (d, short) =
      let wanted = upper (trim public_key) in
      let rest = without wanted t.requests in
      let removed : remove_first wanted t.requests ≡ some (found, rest) =
        remove_first-without wanted t.requests d ∙ rw (e) refl in
      let answered : ToxTransport = record t { requests = rest } in
      let kept : (reject_request hex upper published public_key t).1.requests ≡ rest =
        rw (reject_request, removed) (persist-requests hex upper published answered).0 in
      subst IsRequestList (sym kept) (without-IsRequestList wanted t.requests (d, short))

  accept-IsRequestList :
      (published accepted : Bool) (snapshot : Option (List (ℕ × FriendEntry))) (public_key : Text)
      (t : ToxTransport)
      → (found : Option Text) → find_key (upper (trim public_key)) t.requests ≡ found
      → IsRequestList t.requests
      → IsRequestList (accept_request hex upper published accepted snapshot public_key t).1.requests
  unfolding accept_request
  accept-IsRequestList published accepted snapshot public_key t none e safe =
      let kept : (accept_request hex upper published accepted snapshot public_key t).1.requests
          ≡ t.requests =
        rw (accept_request, e) refl in
      subst IsRequestList (sym kept) safe
  accept-IsRequestList published false snapshot public_key t (some key) e safe =
      let kept : (accept_request hex upper published false snapshot public_key t).1.requests
          ≡ t.requests =
        rw (accept_request, e) refl in
      subst IsRequestList (sym kept) safe
  accept-IsRequestList published true snapshot public_key t (some key) e safe =
      let rest = without key t.requests in
      let answered : ToxTransport = record t { requests = rest } in
      let kept : (accept_request hex upper published true snapshot public_key t).1.requests ≡ rest =
        rw (accept_request, e) (persist-requests hex upper published answered).0 in
      subst IsRequestList (sym kept) (without-IsRequestList key t.requests safe)

  -- An arrival, a refusal and an acceptance keep the list of pending requests free of two requests for
  -- one key, up to ASCII case, and at most 128 long.
  pub requests-IsRequestList :
      (published accepted : Bool) (request : PeerRequest)
      (snapshot : Option (List (ℕ × FriendEntry)))
      → (public_key : Text) (t : ToxTransport) → IsRequestList t.requests
      → IsRequestList (friend_request hex upper published request t).requests
        × IsRequestList (reject_request hex upper published public_key t).1.requests
        × IsRequestList
            (accept_request hex upper published accepted snapshot public_key t).1.requests
  requests-IsRequestList published accepted request snapshot public_key t safe =
      let found = find_key (upper (trim public_key)) t.requests in
      (
        friend_request-IsRequestList published request t safe,
        reject-IsRequestList published public_key t found refl safe,
        accept-IsRequestList published accepted snapshot public_key t found refl safe,
      )
