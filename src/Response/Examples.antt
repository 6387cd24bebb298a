-- ===== src/Response/Examples.antt =====
-- core/response.go with a writer that records the calls made on it.
use thinkgo.Base.{ℕ, ◌≡◌, refl, false, Bytes, List, [], ◌∷◌, ◌++◌, codes, length}
use thinkgo.Response.Defs.{HttpWriter, Response, new_response, write_header, write}
use thinkgo.Response.Once.{Call, header, body, calls, raws, once, first_status, calls-once}

data Sent : Type 0 where
  status : ℕ → Sent
  bytes : Bytes → Sent
  field : Bytes → Bytes → Sent
  no_field : Bytes → Sent

abbrev recorder : HttpWriter (List Sent)
recorder = record {
  write_header = λ code w. w ++ status code ∷ [];
  write = λ b w. (w ++ bytes b ∷ [], length b, false);
  set_header = λ k v w. w ++ field k v ∷ [];
  add_header = λ k v w. w ++ field k v ∷ [];
  del_header = λ k w. w ++ no_field k ∷ [];
}

abbrev two_headers : List Call
two_headers = header 404 ∷ body (codes "no") ∷ header 500 ∷ []

abbrev fresh : Response (List Sent)
fresh = new_response []

second_header_dropped :
    (calls recorder two_headers fresh).writer ≡ status 404 ∷ bytes (codes "no") ∷ []
unfolding calls write_header write
second_header_dropped = refl

calls-once_example :
    ((calls recorder two_headers fresh).writer ≡ raws recorder (once false two_headers) [])
    × ((calls recorder two_headers fresh).status ≡ first_status 0 two_headers)
calls-once_example = calls-once recorder two_headers fresh refl
