-- ===== src/Middleware/Examples.antt =====
-- `BasicAuth` at concrete inputs.
use thinkgo.Base.{
  ℕ, List, ◌∷◌, ◌≡◌, ◌↔◌, ◌⊎◌, ◌&&◌, refl, true, false, Bool, Bytes, [], Option, none, some, codes,
  equal, length, if◌then◌else◌, ◌==◌,
}
use thinkgo.Response.Defs.{HttpWriter, new_response, set_header}
use thinkgo.Middleware.Auth.{basic_auth, is_valid, check_from, Accepted, basic_auth-Accepted}
use thinkgo.Middleware.Errors.{
  Ran, returned, panicked, recover, logger, serve, Handling, finished, failed, Falls,
  serve-panicked,
}

-- A decoder for texts that are not encoded.
abbrev plain_text : Bytes → Option Bytes
plain_text s = some s

abbrev joe : Bytes → Bytes → Bool
joe user pass = equal user (codes "joe") && equal pass (codes "a:b")

abbrev counter : HttpWriter ℕ
counter = record {
  write_header = λ code w. w;
  write = λ b w. (length b, length b, false);
  set_header = λ k v w. w;
  add_header = λ k v w. w;
  del_header = λ k w. w;
}

colon_in_password : is_valid plain_text joe (codes "Basic joe:a:b") ≡ true
unfolding is_valid check_from equal
colon_in_password = refl

basic_auth-Accepted_example :
    ((basic_auth plain_text joe counter [] (codes "Basic joe:x") (new_response 0)
        ≡ (new_response 0, none))
      ↔ (([] ≡ codes "websocket") ⊎ Accepted plain_text joe (codes "Basic joe:x")))
    × (¬ (([] ≡ codes "websocket") ⊎ Accepted plain_text joe (codes "Basic joe:x"))
        → basic_auth plain_text joe counter [] (codes "Basic joe:x") (new_response 0) ≡ (
          set_header counter
              (codes "WWW-Authenticate")
              (codes "Basic realm=Restricted")
              (new_response 0),
          some 401,
        ))
basic_auth-Accepted_example =
    basic_auth-Accepted plain_text joe counter [] (codes "Basic joe:x") (new_response 0)

-- The state of a request is the list of what was done to it, the last thing first: an error is
-- answered by its code, but 9 makes the handler of errors panic; a line of the log is 1.
abbrev answer : ℕ → List ℕ → Handling (List ℕ) Bytes
answer e s = if e == 9 then failed s (codes "oops") else finished (e ∷ s)

abbrev line : List ℕ → Handling (List ℕ) Bytes
line s = finished (1 ∷ s)

abbrev falls : List ℕ → Ran (List ℕ) ℕ Bytes
falls s = panicked s (codes "nil map")

abbrev fails : List ℕ → Ran (List ℕ) ℕ Bytes
fails s = returned s (some 9)

panic_is_answered :
    serve answer length line (recover answer length line (logger answer length line falls)) []
    ≡ returned (7 ∷ []) none
unfolding serve recover logger
panic_is_answered = refl

-- The handler of errors panics on the error 9, and answers the panic as the error 4.
error_is_answered :
    serve answer length line (recover answer length line (logger answer length line fails)) []
    ≡ returned (4 ∷ []) none
unfolding serve recover logger
error_is_answered = refl

serve-panicked_example :
    (serve answer length line (recover answer length line (logger answer length line fails)) []
      ≡ panicked [] (codes "oops"))
    ↔ Falls answer length line (fails []) [] (codes "oops")
serve-panicked_example = serve-panicked answer length line fails [] [] (codes "oops")
