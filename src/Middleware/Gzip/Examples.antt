-- ===== src/Middleware/Gzip/Examples.antt =====
-- core/middleware/compress.go with a compressor that keeps all bytes until it is closed.
use thinkgo.Base.{
  ℕ, ◌≡◌, ◌∙◌, refl, ap, sym, true, false, Bytes, List, [], ◌∷◌, ◌++◌, append_assoc, append-nil,
  Option, none, some, codes, length, contains,
}
use thinkgo.Response.Defs.{HttpWriter, Response, new_response, write_header, write}
use thinkgo.Response.Once.{Call, header, body, calls}
use thinkgo.Middleware.Gzip.{Compressor, gzip, gzipped, scheme, write_gzip}
use thinkgo.Middleware.Gzip.Inflated.{
  Inflates, Sends, written, after, concat, bodies, handler, respond, gzip-Inflates,
}

-- A writer that is the body sent
abbrev sender : HttpWriter Bytes
sender = record {
  write_header = λ code w. w;
  write = λ b w. (w ++ b, length b, false);
  set_header = λ k v w. w;
  add_header = λ k v w. w;
  del_header = λ k w. w;
}

abbrev sent : Bytes → Bytes
sent w = w

sender-Sends : Sends sender sent
sender-Sends = record {
  takes = λ b w. refl;
  no_error = λ b w. refl;
  status_apart = λ code w. refl;
  set_apart = λ k v w. refl;
  add_apart = λ k v w. refl;
  del_apart = λ k w. refl;
}

abbrev keeper : Compressor Bytes
keeper = record { reset = []; write = λ b z. (z ++ b, []); close = λ z. z ∷ []; taken = λ b z. 0 }

abbrev unchanged : Bytes → Option Bytes
unchanged s = some s

keeper-written : (bs : List Bytes) (z : Bytes) → written keeper bs z ≡ []
keeper-written [] z = refl
keeper-written (b ∷ bs) z = keeper-written bs (z ++ b)

keeper-after : (bs : List Bytes) (z : Bytes) → after keeper bs z ≡ z ++ concat bs
keeper-after [] z = sym (append-nil z)
keeper-after (b ∷ bs) z = keeper-after bs (z ++ b) ∙ append_assoc z b (concat bs)

keeper-Inflates : Inflates keeper unchanged
keeper-Inflates bs = ap unchanged (
    ap (λ s. s ++ (after keeper bs [] ++ [])) (keeper-written bs [])
    ∙ (append-nil (after keeper bs []) ∙ keeper-after bs []))

abbrev no_header : Bytes → Bytes → Bytes
no_header k w = []

abbrev no_type : Bytes → Bytes
no_type b = []

abbrev page : List Call
page = header 200 ∷ body (codes "ab") ∷ body (codes "c") ∷ []

abbrev error_page : ℕ → List Call
error_page code = header code ∷ body (codes "!") ∷ []

abbrev fresh : Response Bytes
fresh = new_response []

accepts : contains (codes "deflate, gzip") scheme ≡ true
unfolding contains
accepts = refl

gzip-Inflates_example :
    (w : Bytes) × (z : Bytes) × (bytes : Bytes) × ((gzip sender no_header no_type keeper
        (respond sender no_header no_type keeper error_page)
        (handler sender no_header no_type keeper error_page page (some 500))
        (codes "deflate, gzip")
        fresh).writer
      ≡ gzipped z w)
    × (w ≡ [] ++ bytes)
    × (unchanged bytes ≡ some (concat (bodies (page ++ error_page 500))))
gzip-Inflates_example =
    gzip-Inflates sender no_header no_type keeper sent sender-Sends error_page unchanged page
      (some 500) (codes "deflate, gzip") fresh keeper-Inflates accepts

zipped_body :
    (gzip sender no_header no_type keeper
      (respond sender no_header no_type keeper error_page)
      (handler sender no_header no_type keeper error_page page none)
      (codes "gzip")
      fresh).writer
    ≡ gzipped (codes "abc") (codes "abc")
unfolding gzip calls write_header write write_gzip
zipped_body = refl
