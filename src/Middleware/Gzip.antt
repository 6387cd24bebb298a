-- ===== src/Middleware/Gzip.antt =====
-- core/middleware/compress.go: `Gzip` and its `gzipWriter`. The compressor of compress/gzip is a parameter:
-- what it hands to the writer below at a write and when it is closed. So are the headers that were set,
-- and `http.DetectContentType`.
pub mod Inflated
mod Examples
use thinkgo.Base.{
  ℕ, Bool, true, false, if◌then◌else◌, Bytes, List, [], ◌∷◌, Option, none, some, codes, length,
  contains,
}
use thinkgo.Response.Defs.{HttpWriter, Response, set_header, add_header}
use thinkgo.Context.Reply.{content_type}

-- `gzip.Writer` over states `Z`: `Reset`, the blocks of a `Write` and of `Close`, and the number that a
-- write returns that failed.
pub record Compressor (Z : Type 0) : Type 0 where
  pub reset : Z
  pub write : Bytes → Z → Z × List Bytes
  pub close : Z → List Bytes
  pub taken : Bytes → Z → ℕ

-- What a handler finds behind `Gzip`: the writer that was there, or a `gzipWriter` around it.
pub data Sink (W Z : Type 0) : Type 0 where
  bare : W → Sink W Z
  gzipped : Z → W → Sink W Z

abbrev pub vary : Bytes
vary = codes "Vary"

abbrev pub accept_encoding : Bytes
accept_encoding = codes "Accept-Encoding"

abbrev pub content_encoding : Bytes
content_encoding = codes "Content-Encoding"

abbrev pub scheme : Bytes
scheme = codes "gzip"

module _ {W Z : Type 0} (http : HttpWriter W) (header : Bytes → W → Bytes) (detect : Bytes → Bytes)
    (zip : Compressor Z) where
  -- What the compressor hands on, up to the first write that fails
  unfoldable pub write_blocks : List Bytes → W → W × Bool
  write_blocks [] w = (w, false)
  write_blocks (b ∷ bs) w =
      let (w', _, failed) = http.write b w in
      let rest = write_blocks bs w' in if failed then (w', true) else rest

  -- The content type is that of the first bytes that are written, if none was set.
  abbrev pub sniff_with : Bytes → Bytes → W → W
  sniff_with [] b w = http.set_header content_type (detect b) w
  sniff_with (c ∷ s) b w = w

  abbrev pub sniffed : Bytes → W → W
  sniffed b w = sniff_with (header content_type w) b w

  -- `gzipWriter.Write`
  unfoldable pub write_gzip : Bytes → Z → W → Sink W Z × ℕ × Bool
  unfolding write_blocks
  write_gzip b z w =
      let (z', blocks) = zip.write b z in
      let (w', failed) = write_blocks blocks (sniffed b w) in
      (gzipped z' w', (if failed then zip.taken b z else length b), failed)

  abbrev pub on_writer : (W → W) → Sink W Z → Sink W Z
  on_writer f (bare w) = bare (f w)
  on_writer f (gzipped z w) = gzipped z (f w)

  abbrev pub write_sink : Bytes → Sink W Z → Sink W Z × ℕ × Bool
  write_sink b (bare w) = let (w', n, failed) = http.write b w in (bare w', n, failed)
  write_sink b (gzipped z w) = write_gzip b z w

  -- The methods of `gzipWriter` that it has of its `ResponseWriter`, and its own
  abbrev pub sink_http : HttpWriter (Sink W Z)
  sink_http = record {
    write_header = λ code. on_writer (http.write_header code);
    write = write_sink;
    set_header = λ k v. on_writer (http.set_header k v);
    add_header = λ k v. on_writer (http.add_header k v);
    del_header = λ k. on_writer (http.del_header k);
  }

  abbrev pub behind : Sink W Z → Response W → Response (Sink W Z)
  behind s r = record { writer = s; status = r.status; size = r.size; committed = r.committed }

  -- The deferred `Close`, which writes to the writer that was there; a handler does not call `SetWriter`.
  abbrev pub closed : Sink W Z → Sink W Z
  closed (bare w) = bare w
  closed (gzipped z w) = gzipped z (write_blocks (zip.close z) w).0

  module _ {Err : Type 0} (on_error : Err → Response (Sink W Z) → Response (Sink W Z)) where
    -- `c.Error(err)` for an error that is not nil; the middleware returns nil.
    abbrev pub answered : Response (Sink W Z) × Option Err → Response (Sink W Z)
    answered (r, none) = r
    answered (r, some e) = on_error e r

    -- `Gzip`, on the header Accept-Encoding of the request
    unfoldable pub gzip :
        (Response (Sink W Z) → Response (Sink W Z) × Option Err)
        → Bytes
        → Response W
        → Response (Sink W Z)
    unfolding contains write_blocks
    gzip h accept r =
        let r' = add_header http vary accept_encoding r in
        let plain = answered (h (behind (bare r'.writer) r')) in
        let r'' = set_header http content_encoding scheme r' in
        let zipped = answered (h (behind (gzipped zip.reset r''.writer) r'')) in
        if contains accept scheme then record zipped { writer = closed zipped.writer } else plain
