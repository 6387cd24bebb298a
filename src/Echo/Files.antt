-- ===== src/Echo/Files.antt =====
-- core/echo.go: `serveFile`, `listDir` and the handlers of `ServeDir` and `ServeFile`. A file system is a
-- function from names to what is opened, `none` for an error; `http.ServeContent` is not the program's,
-- so what it is called with is the result.
use thinkgo.Base.{
  ℕ, ◌+◌, ◌≡◌, refl, ◌∙◌, Bool, true, false, if◌then◌else◌, Bytes, List, [], ◌∷◌, ◌++◌, Option,
  none, some, codes, count, length, arith, join_path,
}
use thinkgo.Response.Defs.{HttpWriter, Response, set_header, write}
use thinkgo.Context.Reply.{content_type, text_html_charset_utf8}

-- An entry of a directory
pub record Entry : Type 0 where
  pub name : Bytes
  pub is_dir : Bool

-- An open file: whether it is a directory, and what `Readdir` gives, `none` for an error.
pub record File : Type 0 where
  pub is_dir : Bool
  pub entries : Option (List Entry)

-- How `serveFile` ends. `content` is a call of `http.ServeContent`.
pub data Served : Type 0 where
  not_found forbidden unreadable : Served
  listing : List Entry → Served
  content : Bytes → Served

abbrev pub index_page : Bytes
index_page = codes "index.html"

-- `listDir`, up to the text
abbrev pub listed : Option (List Entry) → Served
listed none = unreadable
listed (some es) = listing es

abbrev pub no_index : Bool → File → Served
no_index true d = listed d.entries
no_index false d = forbidden

-- What is served for a directory, by its index file
abbrev pub served_index : Bool → Bytes → File → Option File → Served
served_index auto file d none = no_index auto d
served_index auto file d (some f) = content file

abbrev pub served_opened : (Bytes → Option File) → Bool → Bytes → Option File → Served
served_opened fs auto file none = not_found
served_opened fs auto file (some f) =
    let index = join_path (file ∷ index_page ∷ []) in
    if f.is_dir then served_index auto index f (fs index) else content file

-- `serveFile`
unfoldable pub serve_file : (Bytes → Option File) → Bool → Bytes → Served
unfolding join_path
serve_file fs auto file = served_opened fs auto file (fs file)

-- A line of the listing: a directory has another colour, and a slash behind its name.
abbrev pub colour_of : Bool → Bytes
colour_of true = codes "#e91e63"
colour_of false = codes "#212121"

abbrev pub name_of : Entry → Bytes
name_of e = if e.is_dir then e.name ++ b'/' ∷ [] else e.name

unfoldable pub entry_text : Entry → Bytes
entry_text e =
    codes "<a href=\""
    ++ (name_of e
        ++ (codes "\" style=\"color: "
            ++ (colour_of e.is_dir ++ (codes ";\">" ++ (name_of e ++ codes "</a>\n")))))

unfoldable pub entries_text : List Entry → Bytes
unfolding entry_text
entries_text [] = codes "</pre>\n"
entries_text (e ∷ es) = entry_text e ++ entries_text es

-- The text that `listDir` writes
unfoldable pub list_dir : List Entry → Bytes
unfolding entries_text
list_dir es = codes "<pre>\n" ++ entries_text es

-- The header and the writes of `listDir`, one for each line
module _ {W : Type 0} (http : HttpWriter W) where
  unfoldable pub write_entries : List Entry → Response W → Response W
  unfolding entry_text
  write_entries [] r = (write http (codes "</pre>\n") r).0
  write_entries (e ∷ es) r = write_entries es (write http (entry_text e) r).0

  unfoldable pub write_dir : List Entry → Response W → Response W
  unfolding write_entries
  write_dir es r =
      write_entries es
        (write http (codes "<pre>\n") (set_header http content_type text_html_charset_utf8 r)).0

-- `ServeDir`: the handler of the route "path*", on the value of the parameter "_*", `none` where the
-- context has no such value.
abbrev pub served_value : (Bytes → Option File) → Bool → Option Bytes → Option Served
served_value fs auto none = none
served_value fs auto (some file) = some (serve_file fs auto file)

-- `ServeFile`: a file whose extension is on the black list is not found; `fs` is the directory that
-- the file is in, and `file` its name there.
unfoldable pub serve_one : Bool → (Bytes → Option File) → Bool → Bytes → Served
unfolding serve_file
serve_one black fs auto file = if black then not_found else serve_file fs auto file

count-append : (b : ℕ) (s t : Bytes) → count b (s ++ t) ≡ count b s + count b t
unfolding count
count-append b [] t = ground arith
count-append b (c ∷ s) t = ground (arith, count-append b s t)

-- The names of the entries hold no line break.
abbrev pub AllOneLine : List Entry → Type 0
AllOneLine [] = Unit
AllOneLine (e ∷ es) = (count b'\n' e.name ≡ 0) × AllOneLine es

count-name_of : (e : Entry) → count b'\n' e.name ≡ 0 → count b'\n' (name_of e) ≡ 0
unfolding count
count-name_of e h = ground (arith, count-append b'\n' e.name (b'/' ∷ []))

count-colour_of : (d : Bool) → count b'\n' (colour_of d) ≡ 0
unfolding count
count-colour_of true = refl
count-colour_of false = refl

count-entry_text : (e : Entry) → count b'\n' e.name ≡ 0 → count b'\n' (entry_text e) ≡ 1
unfolding entry_text count
count-entry_text e h =
    let n = name_of e in
    let last = n ++ codes "</a>\n" in
    let middle = colour_of e.is_dir ++ (codes ";\">" ++ last) in
    omega (
      arith,
      count-append b'\n' n (codes "\" style=\"color: " ++ middle),
      count-append b'\n' (colour_of e.is_dir) (codes ";\">" ++ last),
      count-append b'\n' n (codes "</a>\n"),
      count-name_of e h,
      count-colour_of e.is_dir,
    )

count-entries_text :
    (es : List Entry) → AllOneLine es → count b'\n' (entries_text es) ≡ length es + 1
unfolding entries_text
count-entries_text [] h = unfold count in refl
count-entries_text (e ∷ es) h =
    count-append b'\n' (entry_text e) (entries_text es)
    ∙ omega (arith, count-entry_text e h.0, count-entries_text es h.1)

-- The listing of a directory has one line for each entry, and two for the frame.
pub count-list_dir : (es : List Entry) → AllOneLine es → count b'\n' (list_dir es) ≡ length es + 2
unfolding list_dir count
count-list_dir es h =
    count-append b'\n' (codes "<pre>\n") (entries_text es) ∙ omega (arith, count-entries_text es h)
