-- ===== src/Context/Bind.antt =====
-- core/echo.go: the binder. The decoders of encoding/json and encoding/xml on the body of the request are
-- parameters.
use thinkgo.Base.{false, ◌≡◌, refl, if◌then◌else◌, Bytes, Option, none, some, codes, has_prefix}

-- How the binder of core/echo.go ends: an error of a decoder, or the wrong content type.
pub data BindError (D : Type 0) : Type 0 where
  decoding : D → BindError D
  unsupported_media_type : BindError D

abbrev pub decoded : {A D : Type 0} → A × Option D → A × Option (BindError D)
decoded (a, none) = (a, none)
decoded (a, some d) = (a, some (decoding d))

-- `binder.Bind`, on the content type of the request, with the decoders of its body
unfoldable pub bind_body :
    {A D : Type 0} → Bytes → (A → A × Option D) → (A → A × Option D) → A → A × Option (BindError D)
unfolding has_prefix
bind_body ct json xml a =
    if has_prefix ct (codes "application/json")
    then decoded (json a)
    else if has_prefix ct (codes "application/xml")
    then decoded (xml a)
    else (a, some unsupported_media_type)

-- With no such content type the value stays, and the error is the one for an unsupported media type.
pub bind_body_other :
    {A D : Type 0} (ct : Bytes) (json xml : A → A × Option D) (a : A)
    → has_prefix ct (codes "application/json") ≡ false
    → has_prefix ct (codes "application/xml") ≡ false
    → bind_body ct json xml a ≡ (a, some unsupported_media_type)
unfolding bind_body
bind_body_other ct json xml a h k = rw (h, k) refl
