-- ===== src/Context/Reply.antt =====
-- core/context.go: the replies. `json.Marshal`, `xml.Marshal` and their indenting variants are not the
-- program's: their result enters as an argument, `none` for an error. A reply returns the response and
-- whether it returned an error; the writer's own errors are dropped, as in the source.
use thinkgo.Base.{
  ℕ, ◌≡◌, refl, true, ◌||◌, ltb, if◌then◌else◌, Bytes, List, [], ◌∷◌, ◌++◌, Option, none, some,
  codes, arith,
}
use thinkgo.Response.Defs.{HttpWriter, Response, write_header, write, set_header}
use thinkgo.Response.Once.{Call, header, body, set, calls}

abbrev pub charset_utf8 : Bytes
charset_utf8 = codes "charset=utf-8"

abbrev pub with_charset : Bytes → Bytes
with_charset mime = mime ++ (codes "; " ++ charset_utf8)

abbrev pub content_type : Bytes
content_type = codes "Content-Type"

abbrev pub text_html_charset_utf8 : Bytes
text_html_charset_utf8 = with_charset (codes "text/html")

abbrev pub text_plain_charset_utf8 : Bytes
text_plain_charset_utf8 = with_charset (codes "text/plain")

abbrev pub application_json_charset_utf8 : Bytes
application_json_charset_utf8 = with_charset (codes "application/json")

abbrev pub application_javascript_charset_utf8 : Bytes
application_javascript_charset_utf8 = with_charset (codes "application/javascript")

abbrev pub application_xml_charset_utf8 : Bytes
application_xml_charset_utf8 = with_charset (codes "application/xml")

-- `xml.Header`
abbrev pub xml_header : Bytes
xml_header = codes "<?xml version=\"1.0\" encoding=\"UTF-8\"?>\n"

-- `StatusMultipleChoices` and `StatusTemporaryRedirect`
abbrev pub status_multiple_choices : ℕ
status_multiple_choices = 300

abbrev pub status_temporary_redirect : ℕ
status_temporary_redirect = 307

-- How a reply ends.
pub data Outcome : Type 0 where
  ok renderer_not_registered invalid_redirect_code failed : Outcome

module _ {W : Type 0} (http : HttpWriter W) where
  abbrev pub Reply : Type 0
  Reply = Response W → Response W × Outcome

  pub writes : List Bytes → Response W → Response W
  writes [] r = r
  writes (b ∷ bs) r = writes bs (write http b r).0

  -- The header, the status and the body, in the order of every reply
  unfoldable pub send : Bytes → ℕ → List Bytes → Response W → Response W
  unfolding writes
  send mime code bs r = writes bs (write_header http code (set_header http content_type mime r)).0

  abbrev pub marshalled : Option Bytes → (Bytes → Response W → Response W) → Reply
  marshalled none f r = (r, failed)
  marshalled (some b) f r = (f b r, ok)

  -- `HTML`
  abbrev pub html : ℕ → Bytes → Reply
  html code s r = (send text_html_charset_utf8 code (s ∷ []) r, ok)

  -- `String`
  abbrev pub string : ℕ → Bytes → Reply
  string code s r = (send text_plain_charset_utf8 code (s ∷ []) r, ok)

  -- `JSON`, and `JSONIndent` with `json`
  abbrev pub json : ℕ → Option Bytes → Reply
  json code m = marshalled m (λ b. send application_json_charset_utf8 code (b ∷ []))

  -- `JSONP`
  abbrev pub jsonp : ℕ → Bytes → Option Bytes → Reply
  jsonp code callback m = marshalled m (λ b.
      send application_javascript_charset_utf8 code ((callback ++ codes "(") ∷ b ∷ codes ");" ∷ []))

  -- `XML`, and `XMLIndent` with `xml`
  abbrev pub xml : ℕ → Option Bytes → Reply
  xml code m = marshalled m (λ b. send application_xml_charset_utf8 code (xml_header ∷ b ∷ []))

  -- `Render`: the renderer, if one is registered, gives the page or an error.
  abbrev pub render : ℕ → Option (Option Bytes) → Reply
  render code none r = (r, renderer_not_registered)
  render code (some m) r = marshalled m (λ b. send text_html_charset_utf8 code (b ∷ [])) r

  -- `NoContent`
  abbrev pub no_content : ℕ → Reply
  no_content code r = ((write_header http code r).0, ok)

  -- `Redirect`, with `http.Redirect` as an argument
  abbrev pub redirect : (ℕ → Bytes → Response W → Response W) → ℕ → Bytes → Reply
  redirect go code url r =
      if ltb code status_multiple_choices || ltb status_temporary_redirect code
      then (r, invalid_redirect_code)
      else (go code url r, ok)

  -- The calls of the response's methods that `send` makes.
  abbrev pub bodies : List Bytes → List Call
  bodies [] = []
  bodies (b ∷ bs) = body b ∷ bodies bs

  writes-calls : (bs : List Bytes) (r : Response W) → writes bs r ≡ calls http (bodies bs) r
  unfolding writes calls
  writes-calls [] r = refl
  writes-calls (b ∷ bs) r = writes-calls bs (write http b r).0

  status_writes : (bs : List Bytes) (r : Response W) → (writes bs r).status ≡ r.status
  unfolding writes write
  status_writes [] r = refl
  status_writes (b ∷ bs) r = status_writes bs (write http b r).0

  committed_writes : (bs : List Bytes) (r : Response W) → (writes bs r).committed ≡ r.committed
  unfolding writes write
  committed_writes [] r = refl
  committed_writes (b ∷ bs) r = committed_writes bs (write http b r).0

  -- A reply commits the response, and its status is that of the first reply: a later reply keeps the
  -- status, though it still writes its body.
  pub send_status :
      (mime : Bytes) (code : ℕ) (bs : List Bytes) (r : Response W)
      → ((send mime code bs r).committed ≡ true)
        × ((send mime code bs r).status ≡ (if r.committed then r.status else code))
  unfolding send write_header
  send_status mime code bs r =
      let sent = (write_header http code (set_header http content_type mime r)).0 in
      ground (arith, committed_writes bs sent, status_writes bs sent)

  -- The calls in order: the content type, the status, then each part of the body.
  pub send-calls :
      (mime : Bytes) (code : ℕ) (bs : List Bytes) (r : Response W)
      → send mime code bs r ≡ calls http (set content_type mime ∷ header code ∷ bodies bs) r
  unfolding send calls
  send-calls mime code bs r = writes-calls bs _
