-- ===== src/WebRequest/Encoding.antt =====
-- Character encodings of requests and answers and the text of a content
-- (src/webrequest/webRequestUtils.cpp). The functions of papuga are parameters.
use strus_bindings.Base.{
  ℕ, zero, suc, ◌/◌, Bool, true, false, not, ◌&&◌, Option, none, some, List, [], ◌∷◌, ltb, ◌==◌,
  if◌then◌else◌, Bytes, get_or, length, take,
}
use strus_bindings.Base.Int.{ℤ, pos, negsuc}
use strus_bindings.WebRequest.Accept.{Weights, AcceptElem, parse_accept}
use strus_bindings.WebRequest.AcceptChoice.{find_accept}

-- papuga_StringEncoding, as far as the source names it
pub data StringEncoding : Type 0 where
  utf16be utf16 utf32be utf32 binary : StringEncoding
  other_encoding : (n : ℕ) → StringEncoding

-- `papuga_getStringEncodingFromName`, `papuga_stringEncodingName` and `papuga_guess_StringEncoding`
pub record Encodings : Type 0 where
  pub from_name : Bytes → Option StringEncoding
  pub name_of : StringEncoding → Bytes
  pub guess : Bytes → StringEncoding

unfoldable pub big_endian : StringEncoding → StringEncoding
big_endian utf16 = utf16be
big_endian utf32 = utf32be
big_endian e = e

unfoldable pub or_binary : Option StringEncoding → StringEncoding
or_binary none = binary
or_binary (some e) = e

-- `none` is a missing name
unfoldable pub get_string_encoding :
    Encodings → (encoding : Option Bytes) → (content : Bytes) → StringEncoding
unfolding or_binary
get_string_encoding encodings none content = encodings.guess content
get_string_encoding encodings (some name) content = or_binary (encodings.from_name name)

-- the name by which an encoding may be accepted although it is not the name of the encoding
unfoldable pub generic : StringEncoding → Option StringEncoding
generic utf16be = some utf16
generic utf32be = some utf32
generic e = none

unfoldable pub is_binary : StringEncoding → Bool
is_binary binary = true
is_binary e = false

module _ (ws : Weights) (encodings : Encodings) where
  unfoldable pub accepts_generic : List (AcceptElem ws) → Option StringEncoding → Bool
  accepts_generic es none = false
  accepts_generic es (some e) = find_accept ws es (encodings.name_of e)

  unfoldable pub or_next_encoding : StringEncoding → Option StringEncoding → StringEncoding
  unfolding big_endian
  or_next_encoding next none = next
  or_next_encoding next (some e) = big_endian e

  -- the first element with a known encoding
  unfoldable pub first_encoding : List (AcceptElem ws) → StringEncoding
  unfolding or_next_encoding
  first_encoding [] = binary
  first_encoding (e ∷ es) = or_next_encoding (first_encoding es) (encodings.from_name e.type)

  unfoldable pub choose_encoding : Option (List (AcceptElem ws)) → StringEncoding → StringEncoding
  unfolding accepts_generic generic is_binary big_endian first_encoding
  choose_encoding none input = binary
  choose_encoding (some es) input =
      if accepts_generic es (generic input)
      then input
      else if not (is_binary input) && find_accept ws es (encodings.name_of input)
      then big_endian input
      else first_encoding es

  unfoldable pub get_result_string_encoding : Bytes → StringEncoding → StringEncoding
  unfolding choose_encoding
  get_result_string_encoding [] input = input
  get_result_string_encoding (c ∷ cs) input = choose_encoding (parse_accept ws true (c ∷ cs)) input

-- `(rt[maxsize-1] & 0xC0) == 0x80` on bytes
unfoldable pub is_continuation : ℕ → Bool
is_continuation c = c / 64 == 2

-- the loop over `maxsize`
unfoldable pub cut_size : Bytes → (maxsize : ℕ) → ℕ
unfolding is_continuation
cut_size rt zero = zero
cut_size rt (suc n) =
    let less = cut_size rt n in if is_continuation (get_or rt n 0) then less else suc n

unfoldable pub truncate : Bytes → (maxsize : ℕ) → Bytes
unfolding cut_size
truncate rt maxsize = if ltb maxsize (length rt) then take (cut_size rt maxsize) rt else rt

-- `webRequestContent_tostring` of a content that papuga has converted to UTF-8
unfoldable pub content_tostring : (rt : Bytes) → (maxsize : ℤ) → Bytes
unfolding truncate
content_tostring rt (pos maxsize) = truncate rt maxsize
content_tostring rt (negsuc n) = rt
