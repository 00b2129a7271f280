-- ===== src/Parser/Lexical.antt =====
-- Characters, identifiers and skipping (src/parser/interfaceParser.cpp). The pair of pointers `si` and
-- `se` is the list of the bytes between them.
use strus_bindings.Base.{
  ℕ, suc, ◌-◌, Bool, false, not, ◌&&◌, ◌||◌, [], ◌∷◌, leb, ltb, ◌==◌, if◌then◌else◌, Bytes, codes,
  eq_bytes, length, take, drop,
}
use strus_bindings.WebRequest.Content.{or_32}

-- The exceptions, and two that the source does not throw: `overrun` is a pointer behind the end of the
-- source, `stuck` a loop that has used up its fuel.
pub data ParseError : Type 0 where
  unknown_annotation_key annotation_empty single_annotation_only annotation_mandatory : ParseError
  several_annotations unrelated_annotation missing_close_bracket unknown_annotation_tag : ParseError
  comment_not_closed unexpected_annotation illegal_call unbalanced_brackets : ParseError
  identifier_expected unknown_token misplaced_suffix undefined_variable : ParseError
  unexpected_end overrun stuck : ParseError

unfoldable pub ends_with : (ident tail : Bytes) → Bool
ends_with ident tail =
    if ltb (length ident) (length tail)
    then false
    else eq_bytes (drop (length ident - length tail) ident) tail

unfoldable pub is_space : ℕ → Bool
is_space c = leb c 32

unfoldable pub is_alpha : ℕ → Bool
unfolding or_32
is_alpha c = c == b'_' || leb b'a' (or_32 c) && leb (or_32 c) b'z'

unfoldable pub is_digit : ℕ → Bool
is_digit c = leb b'0' c && leb c b'9'

unfoldable pub is_alnum : ℕ → Bool
unfolding is_alpha is_digit
is_alnum c = is_alpha c || is_digit c

-- the bytes while a test holds, and what follows them
unfoldable pub span : (ℕ → Bool) → Bytes → Bytes × Bytes
span test [] = ([], [])
span test (c ∷ cs) =
    let (word, rest) = span test cs in if test c then (c ∷ word, rest) else ([], c ∷ cs)

unfoldable pub parse_identifier : Bytes → Bytes × Bytes
unfolding span is_alnum
parse_identifier src = span is_alnum src

unfoldable pub skip_while : (ℕ → Bool) → Bytes → Bytes
skip_while test [] = []
skip_while test (c ∷ cs) = if test c then skip_while test cs else c ∷ cs

unfoldable pub skip_spaces : Bytes → Bytes
unfolding skip_while is_space
skip_spaces src = skip_while is_space src

unfoldable pub no_eoln : ℕ → Bool
no_eoln c = not (c == 10)

unfoldable pub skip_to_eoln : Bytes → Bytes
unfolding skip_while no_eoln
skip_to_eoln src = skip_while no_eoln src

-- the text that `skip_to_eoln` passes
unfoldable pub line : Bytes → Bytes
unfolding span no_eoln
line src = (span no_eoln src).0

unfoldable pub first_is : Bytes → ℕ → Bool
first_is [] c = false
first_is (d ∷ ds) c = c == d

-- `si + strsize < se && *si == str[0]`
unfoldable pub may_start : (str src : Bytes) → Bool
unfolding first_is
may_start str [] = false
may_start str (c ∷ cs) = ltb (length str) (suc (length cs)) && first_is str c

unfoldable pub starts : (str src : Bytes) → Bool
starts str src = eq_bytes (take (length str) src) str

-- `str` is not empty
unfoldable pub skip_to_str : Bytes → (str : Bytes) → Bytes
unfolding may_start starts
skip_to_str [] str = []
skip_to_str (c ∷ []) str = []
skip_to_str (c ∷ d ∷ ds) str =
    let one = skip_to_str (d ∷ ds) str in
    let two = skip_to_str ds str in
    if may_start str (c ∷ d ∷ ds)
    then (if starts str (c ∷ d ∷ ds) then c ∷ d ∷ ds else one)
    else if c == b'\\'
    then two
    else one

unfoldable pub is_eoln_comment : Bytes → Bool
is_eoln_comment [] = false
is_eoln_comment (c ∷ []) = false
is_eoln_comment (c ∷ d ∷ ds) = c == b'/' && d == b'/'

unfoldable pub is_block_comment : Bytes → Bool
is_block_comment [] = false
is_block_comment (c ∷ []) = false
is_block_comment (c ∷ d ∷ ds) = c == b'/' && d == b'*'

unfoldable pub is_block_end : Bytes → Bool
is_block_end [] = false
is_block_end (c ∷ []) = false
is_block_end (c ∷ d ∷ ds) = c == b'*' && d == b'/'

unfoldable pub contains : ℕ → Bytes → Bool
contains d [] = false
contains d (c ∷ cs) = c == d || contains d cs

-- `std::strchr` in the characters of operators, the closing 0 included
unfoldable pub is_operator : ℕ → Bool
unfolding contains
is_operator c = c == 0 || contains c (codes "<>()*&:,=\"")

unfoldable pub starts_alpha : Bytes → Bool
unfolding is_alpha
starts_alpha [] = false
starts_alpha (c ∷ cs) = is_alpha c

unfoldable pub starts_alnum : Bytes → Bool
unfolding is_alnum
starts_alnum [] = false
starts_alnum (c ∷ cs) = is_alnum c
