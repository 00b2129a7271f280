-- ===== src/WebRequest/TypeNames.antt =====
-- Names of content types (src/webrequest/webRequestUtils.cpp, include/strus/webRequestContent.hpp) are
-- read back.
use strus_bindings.Base.{ℕ, ◌≡◌, refl, false, ◌∷◌, ◌++◌, Bytes, eq_bytes}
use strus_bindings.Base.Result.{ok}
use strus_bindings.WebRequest.Content.{
  ContentType, unknown, xml, json, html, text, type_mime, type_name, content_from_type_name,
  is_letter,
}

-- The mime type and the name of a content type are both read as that content type.
pub content_from_type_name-names :
    (d : ContentType)
    → (content_from_type_name (type_mime d) ≡ ok d) × (content_from_type_name (type_name d) ≡ ok d)
unfolding content_from_type_name type_mime type_name eq_bytes
content_from_type_name-names unknown = (refl, refl)
content_from_type_name-names xml = (refl, refl)
content_from_type_name-names json = (refl, refl)
content_from_type_name-names html = (refl, refl)
content_from_type_name-names text = (refl, refl)

-- What follows the mime type, from a byte on that is no letter, such as a charset, does not matter.
pub content_from_type_name-suffix :
    (d : ContentType) (c : ℕ) (cs : Bytes)
    → is_letter c ≡ false
    → content_from_type_name (type_mime d ++ c ∷ cs) ≡ ok d
unfolding content_from_type_name type_mime is_letter eq_bytes
content_from_type_name-suffix unknown c cs h = refl
content_from_type_name-suffix xml c cs h = rw h refl
content_from_type_name-suffix json c cs h = rw h refl
content_from_type_name-suffix html c cs h = rw h refl
content_from_type_name-suffix text c cs h = rw h refl
