-- ===== src/Tox/Store/Requests.antt =====
-- The pending requests survive a restart.
use mathlib.Core.Path.{subst}
use meta_text.Prelude.{
  ◌≤◌, ◌≡◌, refl, sym, ap, ◌∙◌, false, List, [], ◌∷◌, ◌++◌, length, length-append, append_nil,
  append_cons, leb, arith,
}
use meta_text.Tox.State.{PeerRequest, pending_requests_capacity}
use meta_text.Tox.Requests.{is_pending, has_key}
use meta_text.Tox.Requests.Pending.{AllDistinct, same_key}
use meta_text.Tox.Store.{RestoredState, restore_request, restore_requests}

later_fresh :
    (a : List PeerRequest) (q r : PeerRequest) (rs : List PeerRequest)
    → is_pending q.public_key (a ++ r ∷ rs) ≡ false
    → has_key q.public_key r ≡ false
later_fresh [] q r rs fresh = ground (arith, fresh)
later_fresh (p ∷ a) q r rs fresh = later_fresh a q r rs (ground (arith, fresh))

middle-AllDistinct :
    (a : List PeerRequest) (r : PeerRequest) (rs : List PeerRequest)
    → AllDistinct (a ++ r ∷ rs)
    → is_pending r.public_key a ≡ false
middle-AllDistinct [] r rs d = refl
middle-AllDistinct (q ∷ a) r rs (fresh, d) = ground (
  arith,
  middle-AllDistinct a r rs d,
  later_fresh a q r rs fresh,
  same_key q.public_key r.public_key r.public_key,
)

-- A list of distinct requests, no longer than the list of pending requests may be, is restored as it is
-- behind what is restored already.
pub restore_requests-id :
    (rs : List PeerRequest) (restored : RestoredState)
    → AllDistinct (restored.requests ++ rs)
    → length (restored.requests ++ rs) ≤ pending_requests_capacity
    → restore_requests rs restored ≡ (record restored { requests = restored.requests ++ rs })
unfolding restore_requests restore_request
restore_requests-id [] restored d short =
    ap (λ q. record restored { requests = q }) (sym (append_nil restored.requests))
restore_requests-id (r ∷ rs) restored d short =
    let old = restored.requests in
    let fresh = middle-AllDistinct old r rs d in
    let free : leb pending_requests_capacity (length old) ≡ false =
      ground (arith, short, length-append old (r ∷ rs)) in
    let longer : RestoredState = record restored { requests = old ++ r ∷ [] } in
    let first : restore_request r restored ≡ longer = rw (restore_request, fresh, free) refl in
    let moved = append_cons old r rs in
    let later =
      restore_requests-id rs longer (subst AllDistinct (sym moved) d)
        (subst (λ q. length q ≤ pending_requests_capacity) (sym moved) short) in
    ap (restore_requests rs) first ∙ later ∙ ap (λ q. record restored { requests = q }) moved
