-- ===== src/Context/Files.antt =====
-- core/context.go: `File`, on the files that `serveFile` of core/echo.go serves. `http.ServeContent` is a
-- parameter.
use thinkgo.Base.{
  ℕ, ◌≡◌, refl, ap, Bool, true, false, arith, ◌==◌, if◌then◌else◌, Bytes, [], ◌∷◌, ◌++◌, Option,
  codes, count,
}
use thinkgo.Response.Defs.{HttpWriter, Response, set_header, del_header}
use thinkgo.Echo.Files.{File, Served, listing, content, serve_file, write_dir}

-- `filepath.Split`: behind the last slash
abbrev pub onto : ℕ → Bytes × Bytes → Bytes × Bytes
onto c ([], f) = if c == b'/' then (c ∷ [], f) else ([], c ∷ f)
onto c (x ∷ d, f) = (c ∷ x ∷ d, f)

unfoldable pub split_file : Bytes → Bytes × Bytes
split_file [] = ([], [])
split_file (c ∷ s) = onto c (split_file s)

onto-split :
    (c : ℕ) (s d f : Bytes)
    → d ++ f ≡ s
    → count b'/' f ≡ 0
    → ((onto c (d, f)).0 ++ (onto c (d, f)).1 ≡ c ∷ s) × (count b'/' (onto c (d, f)).1 ≡ 0)
unfolding count
onto-split c s [] f h n = ground (arith, h, n)
onto-split c s (x ∷ d) f h n = (ap (λ (z : Bytes). c ∷ z) h, n)

-- The directory and the file are the path, and the file has no slash.
pub split_file_lem :
    (s : Bytes) → ((split_file s).0 ++ (split_file s).1 ≡ s) × (count b'/' (split_file s).1 ≡ 0)
unfolding split_file
split_file_lem [] = unfold count in (refl, refl)
split_file_lem (c ∷ s) =
    let (h, n) = split_file_lem s in onto-split c s (split_file s).0 (split_file s).1 h n

module _ {W : Type 0} (http : HttpWriter W) (serve_content : Bytes → Response W → Response W) where
  -- What `serveFile` does to the response, and whether it returns an error
  unfoldable pub serve_into : Served → Response W → Response W × Bool
  unfolding write_dir
  serve_into (listing es) r = (write_dir http es r, false)
  serve_into (content file) r = (serve_content file r, false)
  serve_into _ r = (r, true)

  abbrev pub content_disposition : Bytes
  content_disposition = codes "Content-Disposition"

  -- The header goes where there is an error.
  abbrev pub without_header : Response W × Bool → Response W × Bool
  without_header (r, true) = (del_header http content_disposition r, true)
  without_header (r, false) = (r, false)

  -- `File`; `fs` are the files of a directory.
  unfoldable pub file :
      (Bytes → Bytes → Option File) → Bool → Bytes → Bytes → Bool → Response W → Response W × Bool
  unfolding split_file serve_file serve_into
  file fs auto path name attachment r =
      let (d, f) = split_file path in
      let r1 =
        if attachment
        then set_header http content_disposition (codes "attachment; filename=" ++ name) r
        else r in
      without_header (serve_into (serve_file (fs d) auto f) r1)

  failed_keeps :
      (v : Served) (r : Response W)
      → (without_header (serve_into v r)).1 ≡ true
      → ((without_header (serve_into v r)).0.committed ≡ r.committed)
        × ((without_header (serve_into v r)).0.status ≡ r.status)
  unfolding serve_into
  failed_keeps (listing es) r h = cc
  failed_keeps (content f) r h = cc
  failed_keeps _ r h = (refl, refl)

  -- Where `File` returns an error it has neither committed the response nor set its status, so that the
  -- error can still be sent.
  pub file_failed :
      (fs : Bytes → Bytes → Option File) (auto : Bool) (path name : Bytes) (attachment : Bool)
      (r : Response W)
      → (file fs auto path name attachment r).1 ≡ true
      → ((file fs auto path name attachment r).0.committed ≡ r.committed)
        × ((file fs auto path name attachment r).0.status ≡ r.status)
  unfolding file
  file_failed fs auto path name attachment r h =
      let (d, f) = split_file path in
      let disposition = codes "attachment; filename=" ++ name in
      let r1 = if attachment then set_header http content_disposition disposition r else r in
      let (c, t) = failed_keeps (serve_file (fs d) auto f) r1 h in ground (arith, c, t)
