-- ===== src/Tox/Requests/Tests.antt =====
-- Friend requests of crates/meta-text-backend/src/transport.rs on a concrete list.
use meta_text.Prelude.{◌≡◌, refl, true, false, [], ◌∷◌, none, ok, arith}
use meta_text.Prelude.Text.{
  Text, codes, trim, to_ascii_lowercase, text_eq, eq_ignore_ascii_case, is_whitespace,
}
use meta_text.Hex.Digits.{digits}
use meta_text.Tox.State.{PeerRequest, ToxTransport}
use meta_text.Tox.Requests.{friend_request, reject_request, accept_request, remove_first}
use meta_text.Tox.Requests.Answers.{
  Arrived, Accepted, friend_request-pending, accept_request-verdict,
}
use meta_text.Tox.Requests.Invariant.{IsRequestList, requests-IsRequestList}

-- Any letter case matches; lower case stands for the Unicode tables here.
abbrev upper : Text → Text
upper = to_ascii_lowercase

abbrev alice : PeerRequest
alice = record { public_key = codes "AB"; message = codes "hi" }

abbrev bob : PeerRequest
bob = record { public_key = codes "CD"; message = codes "hello" }

abbrev transport : ToxTransport
transport = record {
  friends = [];
  requests = alice ∷ [];
  outbox = [];
  next_message_id = 1;
  expired = 0;
  dropped_requests = 0;
  desired = [];
  file = none;
}

transport-IsRequestList : IsRequestList (alice ∷ [])
transport-IsRequestList = ((refl, tt), omega arith)

alice_removed : (reject_request digits upper false (codes " ab ") transport).0 ≡ ok (codes "AB")
unfolding reject_request remove_first trim to_ascii_lowercase text_eq eq_ignore_ascii_case
    is_whitespace
alice_removed = refl

friend_request-pending_example :
    Arrived digits upper bob transport (friend_request digits upper true bob transport)
friend_request-pending_example = friend_request-pending digits upper true bob transport

accept_request-verdict_example :
    Accepted digits upper true
      (codes "ab")
      transport
      (accept_request digits upper true true none (codes "ab") transport)
accept_request-verdict_example =
    accept_request-verdict digits upper true true none (codes "ab") transport

requests-IsRequestList_example :
    IsRequestList (friend_request digits upper true bob transport).requests
    × IsRequestList (reject_request digits upper true (codes "ab") transport).1.requests
    × IsRequestList (accept_request digits upper true true none (codes "ab") transport).1.requests
requests-IsRequestList_example =
    requests-IsRequestList digits upper true true bob none (codes "ab") transport
      transport-IsRequestList
