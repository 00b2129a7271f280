-- ===== src/WebRequest/Content.antt =====
-- Content types of requests and answers: the enumeration of include/strus/webRequestContent.hpp, the
-- scanning of names and `webRequestContentFromTypeName` of src/webrequest/webRequestUtils.cpp. A C
-- string is the list of its bytes without the closing 0, and a text with its length too.
use strus_bindings.Base.{
  ℕ, ◌+◌, ◌/◌, ◌%◌, Bool, not, ◌&&◌, ◌||◌, Option, none, some, [], ◌∷◌, leb, ◌==◌, if◌then◌else◌,
  Bytes, codes, eq_bytes,
}
use strus_bindings.Base.Result.{Result, ok, err}

pub data ContentType : Type 0 where
  unknown xml json html text : ContentType

unfoldable pub type_mime : ContentType → Bytes
type_mime unknown = codes "application/octet-stream"
type_mime xml = codes "application/xml"
type_mime json = codes "application/json"
type_mime html = codes "text/html"
type_mime text = codes "text/plain"

unfoldable pub type_name : ContentType → Bytes
type_name unknown = codes "unknown"
type_name xml = codes "XML"
type_name json = codes "JSON"
type_name html = codes "HTML"
type_name text = codes "TEXT"

-- papuga_ContentType, as far as the source names it
pub data PapugaContentType : Type 0 where
  papuga_unknown papuga_xml papuga_json : PapugaContentType

unfoldable pub papuga_content_type : ContentType → PapugaContentType
papuga_content_type unknown = papuga_unknown
papuga_content_type xml = papuga_xml
papuga_content_type json = papuga_json
papuga_content_type html = papuga_unknown
papuga_content_type text = papuga_unknown

unfoldable pub papuga_translated_content_type : PapugaContentType → ContentType
papuga_translated_content_type papuga_unknown = unknown
papuga_translated_content_type papuga_xml = xml
papuga_translated_content_type papuga_json = json

-- `c | 32` on a byte
unfoldable pub or_32 : ℕ → ℕ
or_32 c = if c / 32 % 2 == 0 then c + 32 else c

-- `(c|32) >= 'a' && (c|32) <= 'z'`
unfoldable pub is_letter : ℕ → Bool
unfolding or_32
is_letter c = leb b'a' (or_32 c) && leb (or_32 c) b'z'

unfoldable pub is_token_char : ℕ → Bool
unfolding is_letter
is_token_char c = is_letter c || leb b'0' c && leb c b'9' || c == b'.' || c == b'_' || c == b'-'

unfoldable pub skip_spaces : Bytes → Bytes
skip_spaces [] = []
skip_spaces (c ∷ cs) = if leb c 32 then skip_spaces cs else c ∷ cs

-- `std::bad_alloc` and `std::runtime_error`, which the callers do not tell apart; `stuck` stands
-- for a loop that has used up its fuel.
pub data Fault : Type 0 where
  thrown stuck : Fault

-- `push_char` at the position `pos` of a buffer of `size` bytes: the next position
unfoldable pub push_char : (size pos : ℕ) → Result Fault ℕ
push_char size pos = if leb size (pos + 1) then err thrown else ok (pos + 1)

infixl 5 ◌>>=◌
abbrev pub ◌>>=◌ : {A B : Type 0} → Result Fault A → (A → Result Fault B) → Result Fault B
ok a >>= f = f a
err e >>= f = err e

-- the loops that copy characters while a test holds, each through a function
unfoldable pub scan_while :
    (ℕ → Bool) → (ℕ → ℕ) → (size pos : ℕ) → Bytes → Result Fault (Bytes × Bytes × ℕ)
unfolding push_char
scan_while test f size pos [] = ok ([], [], pos)
scan_while test f size pos (c ∷ cs) =
    let taken = do
      pos1 ← push_char size pos
      (word, rest, pos2) ← scan_while test f size pos1 cs
      ok (f c ∷ word, rest, pos2)
    in if test c then taken else ok ([], c ∷ cs, pos)

-- what follows the loop of `parseIdent` and `parseToken`: the spaces are skipped and the 0 is
-- pushed; `none` is the result false, which leaves the source as it was
unfoldable pub close_word : (size : ℕ) → Bytes × Bytes × ℕ → Result Fault (Option (Bytes × Bytes))
unfolding push_char skip_spaces
close_word size ([], rest, pos) = ok none
close_word size (c ∷ word, rest, pos) = do
  pos1 ← push_char size pos
  ok (some (c ∷ word, skip_spaces rest))

unfoldable pub parse_ident : Bytes → (size : ℕ) → Result Fault (Option (Bytes × Bytes))
unfolding scan_while close_word is_letter or_32
parse_ident src size = do
  scanned ← scan_while is_letter or_32 size 0 (skip_spaces src)
  close_word size scanned

unfoldable pub parse_token : Bytes → (size : ℕ) → Result Fault (Option (Bytes × Bytes))
unfolding scan_while close_word is_token_char
parse_token src size = do
  scanned ← scan_while is_token_char (λ c. c) size 0 (skip_spaces src)
  close_word size scanned

unfoldable pub subtype : Option (Bytes × Bytes) → (Bytes → ContentType) → ContentType
subtype none f = unknown
subtype (some (word, rest)) f = f word

unfoldable pub application_type : Bytes → ContentType
application_type word =
    if eq_bytes word (codes "xml")
    then xml
    else if eq_bytes word (codes "json")
    then json
    else unknown

unfoldable pub text_type : Bytes → ContentType
text_type word =
    if eq_bytes word (codes "html")
    then html
    else if eq_bytes word (codes "plain")
    then text
    else unknown

unfoldable pub short_type : Bytes → ContentType
short_type word =
    if eq_bytes word (codes "xml")
    then xml
    else if eq_bytes word (codes "json")
    then json
    else if eq_bytes word (codes "html")
    then html
    else if eq_bytes word (codes "text")
    then text
    else unknown

-- what follows the first word, with the buffer of 128 bytes
unfoldable pub media_type : (word rest : Bytes) → Result Fault ContentType
unfolding parse_ident subtype application_type text_type short_type
media_type word [] = ok (short_type word)
media_type word (c ∷ rest) =
    let application = do sub ← parse_ident rest 128; ok (subtype sub application_type)
    in let plain = do sub ← parse_ident rest 128; ok (subtype sub text_type)
      in if not (c == b'/')
        then ok (short_type word)
        else if eq_bytes word (codes "application")
        then application
        else if eq_bytes word (codes "text")
        then plain
        else ok unknown

unfoldable pub first_word : Option (Bytes × Bytes) → Result Fault ContentType
unfolding media_type
first_word none = ok unknown
first_word (some (word, rest)) = media_type word rest

unfoldable pub content_from_type_name : Bytes → Result Fault ContentType
unfolding first_word parse_ident
content_from_type_name name = do word ← parse_ident name 128; first_word word
