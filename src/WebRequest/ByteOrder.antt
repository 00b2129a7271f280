-- ===== src/WebRequest/ByteOrder.antt =====
-- The byte order of the encoding of an answer (src/webrequest/webRequestUtils.cpp).
use strus_bindings.Base.{
  ℕ, ◌≡◌, refl, Bool, true, false, not, ◌&&◌, Option, none, some, List, [], ◌∷◌, Bytes, inl, inr,
  Bool-cases,
}
use strus_bindings.WebRequest.Accept.{Weights, AcceptElem, parse_accept}
use strus_bindings.WebRequest.AcceptChoice.{find_accept}
use strus_bindings.WebRequest.Encoding.{
  StringEncoding, utf16be, utf16, utf32be, utf32, binary, other_encoding, Encodings, big_endian,
  generic, is_binary, accepts_generic, or_next_encoding, first_encoding, choose_encoding,
  get_result_string_encoding,
}

unfoldable pub has_byte_order : StringEncoding → Bool
has_byte_order utf16 = false
has_byte_order utf32 = false
has_byte_order e = true

big_endian-has_byte_order : (e : StringEncoding) → has_byte_order (big_endian e) ≡ true
unfolding has_byte_order big_endian
big_endian-has_byte_order (other_encoding n) = refl
big_endian-has_byte_order utf16be = refl
big_endian-has_byte_order utf16 = refl
big_endian-has_byte_order utf32be = refl
big_endian-has_byte_order utf32 = refl
big_endian-has_byte_order binary = refl

binary-has_byte_order : has_byte_order binary ≡ true
unfolding has_byte_order
binary-has_byte_order = refl

module _ (ws : Weights) (encodings : Encodings) where
  or_next_encoding-has_byte_order :
      (next : StringEncoding) (o : Option StringEncoding)
      → has_byte_order next ≡ true
      → has_byte_order (or_next_encoding ws encodings next o) ≡ true
  unfolding or_next_encoding
  or_next_encoding-has_byte_order next none h = h
  or_next_encoding-has_byte_order next (some e) h = big_endian-has_byte_order e

  first_encoding-has_byte_order :
      (es : List (AcceptElem ws)) → has_byte_order (first_encoding ws encodings es) ≡ true
  unfolding first_encoding has_byte_order
  first_encoding-has_byte_order [] = refl
  first_encoding-has_byte_order (e ∷ es) =
      or_next_encoding-has_byte_order (first_encoding ws encodings es) (encodings.from_name e.type)
        (first_encoding-has_byte_order es)

  accepted-has_byte_order :
      (es : List (AcceptElem ws)) (input : StringEncoding)
      → accepts_generic ws encodings es (generic input) ≡ true
      → has_byte_order input ≡ true
  unfolding accepts_generic generic has_byte_order
  accepted-has_byte_order es (other_encoding n) h = refl
  accepted-has_byte_order es utf16be h = refl
  accepted-has_byte_order es utf16 h = h
  accepted-has_byte_order es utf32be h = refl
  accepted-has_byte_order es utf32 h = h
  accepted-has_byte_order es binary h = refl

  choose_encoding-has_byte_order :
      (o : Option (List (AcceptElem ws))) (input : StringEncoding)
      → has_byte_order (choose_encoding ws encodings o input) ≡ true
  unfolding choose_encoding
  choose_encoding-has_byte_order none input = binary-has_byte_order
  choose_encoding-has_byte_order (some es) input =
      elim (Bool-cases (accepts_generic ws encodings es (generic input))) [
        | inl e ↦ rw e (accepted-has_byte_order es input e)
        | inr e ↦
            elim (Bool-cases
              (not (is_binary input) && find_accept ws es (encodings.name_of input))) [
                | inl f ↦ rw e (rw f (big_endian-has_byte_order input))
                | inr f ↦ rw e (rw f (first_encoding-has_byte_order es))
              ]
      ]

  -- With a header that names character sets, the encoding of the answer has a byte order: it is neither
  -- UTF-16 nor UTF-32 without one, whatever the encoding of the request was.
  pub get_result_string_encoding-has_byte_order :
      (c : ℕ) (cs : Bytes) (input : StringEncoding)
      → has_byte_order (get_result_string_encoding ws encodings (c ∷ cs) input) ≡ true
  unfolding get_result_string_encoding
  get_result_string_encoding-has_byte_order c cs input =
      choose_encoding-has_byte_order (parse_accept ws true (c ∷ cs)) input
