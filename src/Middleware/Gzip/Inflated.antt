-- ===== src/Middleware/Gzip/Inflated.antt =====
-- What is sent behind `Gzip` of core/middleware/compress.go.
use thinkgo.Base.{
  ℕ, ◌≡◌, ◌∙◌, refl, ap, sym, true, false, Bytes, List, [], ◌∷◌, ◌++◌, append_assoc, append-nil,
  Option, none, some, contains, Bool-cases, inl, inr,
}
use thinkgo.Response.Defs.{HttpWriter, Response, set_header, add_header, write_header, write}
use thinkgo.Response.Once.{Call, header, body, set, add, del, call, calls}
use thinkgo.Context.Reply.{content_type}
use thinkgo.Middleware.Gzip.{
  Compressor, Sink, gzipped, scheme, write_blocks, write_gzip, sniffed, sniff_with, on_writer,
  write_sink, sink_http, closed, gzip, behind, answered, vary, accept_encoding, content_encoding,
}

abbrev pub concat : List Bytes → Bytes
concat [] = []
concat (b ∷ bs) = b ++ concat bs

-- The bodies that are written by calls
abbrev pub bodies : List Call → List Bytes
bodies [] = []
bodies (body b ∷ cs) = b ∷ bodies cs
bodies (_ ∷ cs) = bodies cs

-- The calls of the handler of errors
abbrev pub extra : {Err : Type 0} → (Err → List Call) → Option Err → List Call
extra answer none = []
extra answer (some e) = answer e

module _ {Z : Type 0} (zip : Compressor Z) where
  -- What a compressor hands on for several writes, and its state behind them.
  abbrev pub written : List Bytes → Z → Bytes
  written [] z = []
  written (b ∷ bs) z = concat (zip.write b z).1 ++ written bs (zip.write b z).0

  abbrev pub after : List Bytes → Z → Z
  after [] z = z
  after (b ∷ bs) z = after bs (zip.write b z).0

  -- `inflate` undoes what a compressor makes from its reset to its end.
  abbrev pub Inflates : (Bytes → Option Bytes) → Type 0
  Inflates inflate =
      (bs : List Bytes)
      → inflate (written bs zip.reset ++ concat (zip.close (after bs zip.reset))) ≡ some (concat bs)

-- A writer that takes all bytes: `sent` is the body so far, which headers leave alone.
pub record Sends {W : Type 0} (http : HttpWriter W) (sent : W → Bytes) : Type 0 where
  pub takes : (b : Bytes) (w : W) → sent (http.write b w).0 ≡ sent w ++ b
  pub no_error : (b : Bytes) (w : W) → (http.write b w).2 ≡ false
  pub status_apart : (code : ℕ) (w : W) → sent (http.write_header code w) ≡ sent w
  pub set_apart : (k v : Bytes) (w : W) → sent (http.set_header k v w) ≡ sent w
  pub add_apart : (k v : Bytes) (w : W) → sent (http.add_header k v w) ≡ sent w
  pub del_apart : (k : Bytes) (w : W) → sent (http.del_header k w) ≡ sent w

module _ {W Z : Type 0} (http : HttpWriter W) (head : Bytes → W → Bytes) (detect : Bytes → Bytes)
    (zip : Compressor Z) where
  abbrev pub out : HttpWriter (Sink W Z)
  out = sink_http http head detect zip

  calls-append :
      (cs ds : List Call) (r : Response (Sink W Z))
      → calls out (cs ++ ds) r ≡ calls out ds (calls out cs r)
  unfolding calls
  calls-append [] ds r = refl
  calls-append (c ∷ cs) ds r = calls-append cs ds (call out c r)

  module _ {Err : Type 0} (answer : Err → List Call) where
    abbrev pub respond : Err → Response (Sink W Z) → Response (Sink W Z)
    respond e r = calls out (answer e) r

    abbrev pub handler :
        List Call → Option Err → Response (Sink W Z) → Response (Sink W Z) × Option Err
    handler cs e r = (calls out cs r, e)

    answered-calls :
        (cs : List Call) (e : Option Err) (r : Response (Sink W Z))
        → answered http head detect zip respond (handler cs e r)
          ≡ calls out (cs ++ extra answer e) r
    answered-calls cs none r = ap (λ ds. calls out ds r) (sym (append-nil cs))
    answered-calls cs (some e) r = sym (calls-append cs (answer e) r)

module _ {W Z : Type 0} (http : HttpWriter W) (head : Bytes → W → Bytes) (detect : Bytes → Bytes)
    (zip : Compressor Z) (sent : W → Bytes) (sends : Sends http sent) where
  sent-write_blocks :
      (bs : List Bytes) (w : W)
      → sent (write_blocks http head detect zip bs w).0 ≡ sent w ++ concat bs
  unfolding write_blocks
  sent-write_blocks [] w = sym (append-nil (sent w))
  sent-write_blocks (b ∷ bs) w = rw (sends.no_error b w) (
      sent-write_blocks bs (http.write b w).0
      ∙ (ap (λ s. s ++ concat bs) (sends.takes b w) ∙ append_assoc (sent w) b (concat bs)))

  sent-sniff_with : (t b : Bytes) (w : W) → sent (sniff_with http head detect zip t b w) ≡ sent w
  sent-sniff_with [] b w = sends.set_apart content_type (detect b) w
  sent-sniff_with (c ∷ t) b w = refl

  abbrev Holds : List Bytes → Z → W → Sink W Z → Type 0
  Holds bs z w s =
      (w' : W) × (s ≡ gzipped (after zip bs z) w') × (sent w' ≡ sent w ++ written zip bs z)

  header-Same :
      (code : ℕ) (r : Response (Sink W Z)) (z : Z) (w : W)
      → r.writer ≡ gzipped z w
      → (w' : W) × ((write_header (out http head detect zip) code r).0.writer ≡ gzipped z w')
        × (sent w' ≡ sent w)
  unfolding write_header
  header-Same code r z w e = elim (Bool-cases r.committed) [
    | inl c ↦ (w, rw c e, refl)
    | inr c ↦ (
      http.write_header code w,
      rw c (ap (on_writer http head detect zip (http.write_header code)) e),
      sends.status_apart code w,
    )
  ]

  body-Holds :
      (b : Bytes) (r : Response (Sink W Z)) (z : Z) (w : W)
      → r.writer ≡ gzipped z w
      → (w' : W) × ((write (out http head detect zip) b r).0.writer ≡ gzipped (zip.write b z).0 w')
        × (sent w' ≡ sent w ++ concat (zip.write b z).1)
  unfolding write write_gzip
  body-Holds b r z w e = (
    (write_blocks http head detect zip (zip.write b z).1 (sniffed http head detect zip b w)).0,
    ap (λ s. (write_sink http head detect zip b s).0) e,
    sent-write_blocks (zip.write b z).1 (sniffed http head detect zip b w)
        ∙ ap (λ s. s ++ concat (zip.write b z).1) (sent-sniff_with (head content_type w) b w),
  )

  -- A call that writes no body, in front of others.
  same-Holds :
      (bs : List Bytes) (z : Z) (w w' : W) {s : Sink W Z}
      → sent w' ≡ sent w
      → Holds bs z w' s
      → Holds bs z w s
  same-Holds bs z w w' h (w'', e, s) = (w'', e, s ∙ ap (λ t. t ++ written zip bs z) h)

  calls-Holds :
      (cs : List Call) (r : Response (Sink W Z)) (z : Z) (w : W)
      → r.writer ≡ gzipped z w
      → Holds (bodies cs) z w (calls (out http head detect zip) cs r).writer
  unfolding calls
  calls-Holds [] r z w e = (w, e, sym (append-nil (sent w)))
  calls-Holds (header code ∷ cs) r z w e =
      let (w', e', s) = header-Same code r z w e in
      same-Holds (bodies cs) z w w' s
        (calls-Holds cs (call (out http head detect zip) (header code) r) z w' e')
  calls-Holds (body b ∷ cs) r z w e =
      let (w', e', s) = body-Holds b r z w e in
      let (w'', e'', s') =
        calls-Holds cs (call (out http head detect zip) (body b) r) (zip.write b z).0 w' e' in
      let rest = written zip (bodies cs) (zip.write b z).0 in
      (
        w'',
        e'',
        s' ∙ (ap (λ t. t ++ rest) s ∙ append_assoc (sent w) (concat (zip.write b z).1) rest),
      )
  calls-Holds (set k v ∷ cs) r z w e =
      let f = http.set_header k v in
      same-Holds (bodies cs) z w (f w) (sends.set_apart k v w) (
        calls-Holds cs (call (out http head detect zip) (set k v) r) z (f w)
          (ap (on_writer http head detect zip f) e))
  calls-Holds (add k v ∷ cs) r z w e =
      let f = http.add_header k v in
      same-Holds (bodies cs) z w (f w) (sends.add_apart k v w) (
        calls-Holds cs (call (out http head detect zip) (add k v) r) z (f w)
          (ap (on_writer http head detect zip f) e))
  calls-Holds (del k ∷ cs) r z w e =
      let f = http.del_header k in
      same-Holds (bodies cs) z w (f w) (sends.del_apart k w) (
        calls-Holds cs (call (out http head detect zip) (del k) r) z (f w)
          (ap (on_writer http head detect zip f) e))

  module _ {Err : Type 0} (answer : Err → List Call) where
    -- Where the request accepts gzip and the writer takes all bytes, what `Gzip` sends inflates to the
    -- bodies that the handler wrote, and behind them those of the handler of errors, if there was one.
    pub gzip-Inflates :
        (inflate : Bytes → Option Bytes) (cs : List Call) (e : Option Err) (accept : Bytes)
        (r : Response W)
        → Inflates zip inflate
        → contains accept scheme ≡ true
        → (w : W) × (z : Z) × (bytes : Bytes) × ((gzip http head detect zip
              (respond http head detect zip answer)
              (handler http head detect zip answer cs e)
              accept
              r).writer
            ≡ gzipped z w)
          × (sent w ≡ sent r.writer ++ bytes)
          × (inflate bytes ≡ some (concat (bodies (cs ++ extra answer e))))
    unfolding gzip
    gzip-Inflates inflate cs e accept r inflates a =
        let r' = set_header http content_encoding scheme (add_header http vary accept_encoding r) in
        let s = behind http head detect zip (gzipped zip.reset r'.writer) r' in
        let made = cs ++ extra answer e in
        let (w, q, h) = calls-Holds made s zip.reset r'.writer refl in
        let z = after zip (bodies made) zip.reset in
        let main = written zip (bodies made) zip.reset in
        let before =
          sends.set_apart content_encoding scheme _
          ∙ sends.add_apart vary accept_encoding r.writer in
        (
          (write_blocks http head detect zip (zip.close z) w).0,
          z,
          main ++ concat (zip.close z),
          rw a (
              ap (λ t. closed http head detect zip t.writer)
                (answered-calls http head detect zip answer cs e s)
              ∙ ap (closed http head detect zip) q),
          sent-write_blocks (zip.close z) w
              ∙ (ap (λ t. t ++ concat (zip.close z)) (h ∙ ap (λ t. t ++ main) before)
                  ∙ append_assoc (sent r.writer) main (concat (zip.close z))),
          inflates (bodies made),
        )
