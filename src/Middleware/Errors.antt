-- ===== src/Middleware/Errors.antt =====
-- core/recover.go and core/logger.go, which `Use(Recover(), Logger())` of core/thinkgo.go puts in front of
-- every handler. A handler maps the state of the request to a new state and an error, or panics in one.
use thinkgo.Base.{
  ℕ, ◌≡◌, ◌↔◌, refl, ap, ◌∙◌, leb, if◌then◌else◌, Bytes, [], ◌∷◌, Option, none, some,
}

-- How a handler ends; `P` is what it panics with.
pub data Ran (S Err P : Type 0) : Type 0 where
  returned : S → Option Err → Ran S Err P
  panicked : S → P → Ran S Err P

-- The colours of the status in the log
pub data Colour : Type 0 where
  green red yellow cyan : Colour

unfoldable pub status_colour : ℕ → Colour
status_colour n =
    if leb 500 n then red else if leb 400 n then yellow else if leb 300 n then cyan else green

-- The address that is logged: the headers X-Real-IP and X-Forwarded-For, or the host of the connection.
abbrev pub or_forwarded : Bytes → Bytes → Bytes
or_forwarded [] host = host
or_forwarded (c ∷ s) host = c ∷ s

unfoldable pub remote_addr : Bytes → Bytes → Bytes → Bytes
remote_addr [] forwarded host = or_forwarded forwarded host
remote_addr (c ∷ s) forwarded host = c ∷ s

-- The path that is logged
abbrev pub logged_path : Bytes → Bytes
logged_path [] = b'/' ∷ []
logged_path (c ∷ s) = c ∷ s

-- How a call ends that returns nothing: the handler of errors, or the logger.
pub data Handling (S P : Type 0) : Type 0 where
  finished : S → Handling S P
  failed : S → P → Handling S P

-- `on_error` is the handler of errors, which `c.Error` calls; `message` makes an error of what was
-- recovered, and `log` logs the line for a state. Both calls may panic.
module _ {S Err P : Type 0} (on_error : Err → S → Handling S P) (message : P → Err)
    (log : S → Handling S P) where
  -- `c.Error(err)` for an error that is not nil
  abbrev pub handled : S → Option Err → Handling S P
  handled s none = finished s
  handled s (some e) = on_error e s

  -- The end of a handler that goes on after such a call and then returns nil
  abbrev pub then_nil : Handling S P → Ran S Err P
  then_nil (finished s) = returned s none
  then_nil (failed s p) = panicked s p

  -- The function that is deferred handles what was recovered; a panic in it goes on.
  abbrev pub recovered : Ran S Err P → Ran S Err P
  recovered (returned s e) = returned s e
  recovered (panicked s p) = then_nil (on_error (message p) s)

  -- `Recover`
  unfoldable pub recover : (S → Ran S Err P) → S → Ran S Err P
  recover next s = recovered (next s)

  abbrev pub log_after : Handling S P → Ran S Err P
  log_after (finished s) = then_nil (log s)
  log_after (failed s p) = panicked s p

  abbrev pub logged : Ran S Err P → Ran S Err P
  logged (returned s e) = log_after (handled s e)
  logged (panicked s p) = panicked s p

  -- `Logger`
  unfoldable pub logger : (S → Ran S Err P) → S → Ran S Err P
  logger next s = logged (next s)

  -- The end of `ServeHTTP`: the error of the chain is handled; a panic is not caught here.
  abbrev pub ended : Ran S Err P → Ran S Err P
  ended (returned s e) = then_nil (handled s e)
  ended (panicked s p) = panicked s p

  unfoldable pub serve : (S → Ran S Err P) → S → Ran S Err P
  serve h s = ended (h s)

  -- The panics that come to `Recover`: of the handler, of the handler of errors on the error that the
  -- handler returned, or of the logger behind that.
  pub data Comes : Ran S Err P → S → P → Type 0 where
    of_handler : {s : S} {p : P} → Comes (panicked s p) s p
    of_error :
        {s t : S} {e : Err} {p : P} → on_error e s ≡ failed t p → Comes (returned s (some e)) t p
    of_log :
        {s t u : S} {e : Option Err} {p : P}
        → handled s e ≡ finished t
        → log t ≡ failed u p
        → Comes (returned s e) u p

  -- What a panicking request comes from
  abbrev pub Falls : Ran S Err P → S → P → Type 0
  Falls r u q = (t : S) × (p : P) × Comes r t p × (on_error (message p) t ≡ failed u q)

  then_nil-failed :
      (o : Handling S P) (u : S) (q : P) → ended (then_nil o) ≡ panicked u q → o ≡ failed u q
  then_nil-failed (finished s) u q h = cc
  then_nil-failed (failed s p) u q h = cc

  failed-then_nil :
      (o : Handling S P) (u : S) (q : P) → o ≡ failed u q → ended (then_nil o) ≡ panicked u q
  failed-then_nil o u q h = ap (λ z. ended (then_nil z)) h

  log-Falls :
      (s t : S) (e : Option Err) (u : S) (q : P) (o : Handling S P)
      → handled s e ≡ finished t
      → log t ≡ o
      → ended (recovered (then_nil o)) ≡ panicked u q
      → Falls (returned s e) u q
  log-Falls s t e u q (finished v) g l h = cc
  log-Falls s t e u q (failed v p) g l h =
      (v, p, of_log g l, then_nil-failed (on_error (message p) v) u q h)

  returned-Falls :
      (s : S) (e : Option Err) (u : S) (q : P) (o : Handling S P)
      → handled s e ≡ o
      → ended (recovered (log_after o)) ≡ panicked u q
      → Falls (returned s e) u q
  returned-Falls s none u q (failed v p) g h = cc
  returned-Falls s (some e) u q (failed v p) g h =
      (v, p, of_error g, then_nil-failed (on_error (message p) v) u q h)
  returned-Falls s e u q (finished t) g h = log-Falls s t e u q (log t) g refl h

  chain-Falls :
      (r : Ran S Err P) (u : S) (q : P) → ended (recovered (logged r)) ≡ panicked u q → Falls r u q
  chain-Falls (panicked s p) u q h =
      (s, p, of_handler, then_nil-failed (on_error (message p) s) u q h)
  chain-Falls (returned s e) u q h = returned-Falls s e u q (handled s e) refl h

  Falls-chain :
      (r : Ran S Err P) (t u : S) (p q : P)
      → Comes r t p
      → on_error (message p) t ≡ failed u q
      → ended (recovered (logged r)) ≡ panicked u q
  Falls-chain _ t u p q of_handler h = failed-then_nil (on_error (message p) t) u q h
  Falls-chain _ t u p q (of_error g) h =
      ap (λ o. ended (recovered (log_after o))) g ∙ failed-then_nil (on_error (message p) t) u q h
  Falls-chain _ t u p q (of_log g l) h =
      ap (λ o. ended (recovered (log_after o))) g
      ∙ ap (λ o. ended (recovered (then_nil o))) l
      ∙ failed-then_nil (on_error (message p) t) u q h

  -- Behind `Recover` and `Logger` a request ends in a panic exactly if a panic comes to `Recover`, from
  -- the handler, the handler of errors or the logger, and the handler of errors panics on the error that
  -- is made of it: that is the panic the request ends in.
  pub serve-panicked :
      (h : S → Ran S Err P) (s u : S) (q : P)
      → (serve (recover (logger h)) s ≡ panicked u q) ↔ Falls (h s) u q
  unfolding serve recover logger
  serve-panicked h s u q = (chain-Falls (h s) u q, λ x. Falls-chain (h s) x.0 u x.1 q x.2 x.3)
