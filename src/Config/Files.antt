-- ===== src/Config/Files.antt =====
-- core/config/json.go and core/config/xml/xml.go: `Parse`, `GetSection` and `SaveConfigFile`. What a file
-- holds, whether it can be created, the parser of x2j and the printers of encoding/json and encoding/xml
-- are parameters.
use thinkgo.Base.{
  ◌≡◌, ◌≢◌, ◌↔◌, refl, ap, ◌∙◌, Bool, true, false, Bytes, List, [], Option, none, some, codes,
  lookup,
}
use thinkgo.Config.Json as Json
use thinkgo.Config.Xml as Xml
use thinkgo.Config.Xml.{Got, got, failed, panics}

-- `Parse` of json: the text of the file, if it can be read
unfoldable pub parse_json :
    {F : Type 0}
    → (Bytes → Option (Json.Json F))
    → (Bytes → Option (Json.Values F))
    → Option Bytes
    → Option (Json.Json F)
unfolding Json.parse_data
parse_json decode decode_array none = none
parse_json decode decode_array (some text) = Json.parse_data decode decode_array text

-- A map of texts, for any interface value: a type assertion
abbrev pub Section : Type 0
Section = List (Bytes × Bytes)

module _ {X : Type 0} (as_map : X → Option (Xml.Xml X)) where
  -- `d["config"].(map[string]interface{})`
  abbrev pub config_of : Option (Xml.Value X) → Got (Xml.Xml X)
  config_of none = panics
  config_of (some (Xml.str s)) = panics
  config_of (some (Xml.other x)) = elim (as_map x) [ none ↦ panics | some m ↦ got m ]

  abbrev pub parse_doc : Option (Xml.Xml X) → Got (Xml.Xml X)
  parse_doc none = failed
  parse_doc (some d) = config_of (lookup (codes "config") d)

  -- `Parse` of xml
  unfoldable pub parse_xml : (Bytes → Option (Xml.Xml X)) → Option Bytes → Got (Xml.Xml X)
  unfolding lookup
  parse_xml doc_to_map none = failed
  parse_xml doc_to_map (some text) = parse_doc (doc_to_map text)

  -- `ParseData` of xml: the disk, once the text was written to the temporary file, or `none` for an error, is
  -- read at that file.
  unfoldable pub parse_xml_data :
      (Bytes → Option (Xml.Xml X)) → Option (Bytes → Option Bytes) → Bytes → Got (Xml.Xml X)
  unfolding parse_xml
  parse_xml_data doc_to_map none name = failed
  parse_xml_data doc_to_map (some disk) name = parse_xml doc_to_map (disk name)

  -- Where the temporary file has the text, that is parsed as it is.
  pub parse_xml_data-read :
      (doc_to_map : Bytes → Option (Xml.Xml X)) (disk : Bytes → Option Bytes) (name text : Bytes)
      → disk name ≡ some text
      → parse_xml_data doc_to_map (some disk) name ≡ parse_doc (doc_to_map text)
  unfolding parse_xml_data parse_xml
  parse_xml_data-read doc_to_map disk name text e = rw (e, parse_xml) refl

-- `GetSection` of json: no value that is decoded or set is a map of texts.
abbrev pub json_section : {F : Type 0} → Option (Json.Value F) → Got Section
json_section none = failed
json_section (some v) = panics

unfoldable pub get_json_section : {F : Type 0} → Bytes → Json.Json F → Got Section
unfolding lookup
get_json_section section c = json_section (Json.lookup_in section c)

-- `GetSection` of xml
abbrev pub xml_section : {X : Type 0} → (X → Option Section) → Option (Xml.Value X) → Got Section
xml_section as_section none = failed
xml_section as_section (some (Xml.str s)) = panics
xml_section as_section (some (Xml.other x)) = elim (as_section x) [ none ↦ panics | some m ↦ got m ]

unfoldable pub get_xml_section :
    {X : Type 0} → (X → Option Section) → Bytes → Xml.Xml X → Got Section
unfolding lookup
get_xml_section as_section section c = xml_section as_section (lookup section c)

-- What the file holds behind `SaveConfigFile`, if it was created, and whether an error is returned. The file is
-- created before the values are printed.
abbrev pub written_file : (Bytes → Bytes × Bool) → Option Bytes → Option Bytes × Bool
written_file write none = (some [], true)
written_file write (some b) = (some (write b).0, (write b).1)

unfoldable pub save_config_file :
    {C : Type 0} → (C → Option Bytes) → (Bytes → Bytes × Bool) → Bool → C → Option Bytes × Bool
save_config_file marshal write false c = (none, true)
save_config_file marshal write true c = written_file write (marshal c)

json_section-panics :
    {F : Type 0} (o : Option (Json.Value F)) → (json_section o ≡ panics) ↔ (o ≢ none)
json_section-panics none = (λ h. cc, λ h. absurd (h refl))
json_section-panics (some v) = (λ h e. cc, λ h. refl)

-- `GetSection` of json never gives a section: it panics exactly where the section exists.
pub get_json_section-panics :
    {F : Type 0} (section : Bytes) (c : Json.Json F)
    → (get_json_section section c ≡ panics) ↔ (Json.lookup_in section c ≢ none)
unfolding get_json_section
get_json_section-panics section c = json_section-panics (Json.lookup_in section c)

parse_json-some :
    {F : Type 0} (decode : Bytes → Option (Json.Json F))
    (decode_array : Bytes → Option (Json.Values F)) (b : Bytes) (c : Json.Json F)
    → decode b ≡ some c
    → parse_json decode decode_array (some b) ≡ some c
unfolding parse_json Json.parse_data
parse_json-some decode decode_array b c e = rw (e, Json.parse_data) refl

-- The file that is read is the text that was printed.
read_written :
    {C : Type 0} (read : Bytes → Option C) (write : Bytes → Bytes × Bool) (o : Option Bytes) (c : C)
    → ((b : Bytes) → o ≡ some b → read b ≡ some c)
    → ((b : Bytes) → (write b).1 ≡ false → (write b).0 ≡ b)
    → (written_file write o).1 ≡ false
    → (b : Bytes) × ((written_file write o).0 ≡ some b) × (read b ≡ some c)
read_written read write none c undoes whole e = cc
read_written read write (some b) c undoes whole e = (b, ap some (whole b e), undoes b refl)

-- Where saving returns no error, a later `Parse` of the file gives the values that were saved, if the
-- decoder undoes the printer.
pub parse_json-save_config_file :
    {F : Type 0} (decode : Bytes → Option (Json.Json F))
    (decode_array : Bytes → Option (Json.Values F)) (marshal : Json.Json F → Option Bytes)
    (write : Bytes → Bytes × Bool) (c : Json.Json F)
    → ((c : Json.Json F) (b : Bytes) → marshal c ≡ some b → decode b ≡ some c)
    → ((b : Bytes) → (write b).1 ≡ false → (write b).0 ≡ b)
    → (save_config_file marshal write true c).1 ≡ false
    → parse_json decode decode_array (save_config_file marshal write true c).0 ≡ some c
unfolding save_config_file
parse_json-save_config_file decode decode_array marshal write c undoes whole e =
    let (b, written, same) = read_written decode write (marshal c) c (undoes c) whole e in
    ap (parse_json decode decode_array) written ∙ parse_json-some decode decode_array b c same
