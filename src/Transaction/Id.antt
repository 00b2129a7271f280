-- ===== src/Transaction/Id.antt =====
-- Transaction identifiers: `transactionId_` and `transactionIndex_` of
-- src/webrequest/transaction.cpp, with the conversions of `snprintf` and `sscanf` they use.
pub mod RoundTrip
pub mod Digits
use strus_bindings.Base.{
  ℕ, zero, suc, ◌+◌, ◌-◌, ◌*◌, ◌/◌, ◌%◌, ◌^◌, Bool, true, false, ◌&&◌, ◌||◌, Option, none, some,
  List, [], ◌∷◌, ◌++◌, ltb, leb, ◌==◌, if◌then◌else◌, Bytes,
}
use strus_bindings.Base.Int.{ℤ, pos, negsuc, to_int64}

-- `%08x` of an `unsigned int`
hex_digit : ℕ → ℕ
hex_digit d = if ltb d 10 then b'0' + d else b'a' - 10 + d

print_hex8 : ℕ → Bytes
unfolding hex_digit
print_hex8 n =
    hex_digit (n / 16 ^ 7 % 16)
    ∷ hex_digit (n / 16 ^ 6 % 16)
    ∷ hex_digit (n / 16 ^ 5 % 16)
    ∷ hex_digit (n / 16 ^ 4 % 16)
    ∷ hex_digit (n / 16 ^ 3 % 16)
    ∷ hex_digit (n / 16 ^ 2 % 16)
    ∷ hex_digit (n / 16 % 16)
    ∷ hex_digit (n % 16)
    ∷ []

-- `(unsigned int)(tidx / mod32)`, with the division of C++ that rounds towards 0
high_word : ℤ → ℕ
high_word (pos n) = n / 2 ^ 32 % 2 ^ 32
high_word (negsuc n) = (2 ^ 32 - suc n / 2 ^ 32 % 2 ^ 32) % 2 ^ 32

-- `(unsigned int)(tidx % mod32)`, with the remainder of C++ that has the sign of `tidx`
low_word : ℤ → ℕ
low_word (pos n) = n % 2 ^ 32
low_word (negsuc n) = (2 ^ 32 - suc n % 2 ^ 32) % 2 ^ 32

unfoldable pub transaction_id : ℤ → Bytes
unfolding print_hex8 high_word low_word
transaction_id tidx = print_hex8 (high_word tidx) ++ print_hex8 (low_word tidx)

hex_value : ℕ → Option ℕ
hex_value c =
    if leb b'0' c && leb c b'9'
    then some (c - b'0')
    else if leb b'a' c && leb c b'f'
    then some (c - b'a' + 10)
    else if leb b'A' c && leb c b'F'
    then some (c - b'A' + 10)
    else none

-- the digits of a `%8x`, at most `width` of them; without one the conversion fails
scan_digits : (width acc : ℕ) → (seen : Bool) → Bytes → Option (ℕ × Bytes)
scan_digits zero acc seen cs = if seen then some (acc, cs) else none
scan_digits (suc width) acc seen [] = if seen then some (acc, []) else none
scan_digits (suc width) acc seen (c ∷ cs) = elim (hex_value c) [
  | some d ↦ scan_digits width (acc * 16 + d) true cs
  | none ↦ if seen then some (acc, c ∷ cs) else none
]

is_x : ℕ → Bool
is_x c = c == b'x' || c == b'X'

-- the optional prefix 0x, which counts for the width
scan_prefix : (width : ℕ) → Bytes → Option (ℕ × Bytes)
unfolding hex_value scan_digits is_x
scan_prefix width [] = none
scan_prefix width (c ∷ []) = scan_digits width 0 false (c ∷ [])
scan_prefix width (c ∷ x ∷ cs) =
    if c == b'0' && is_x x
    then scan_digits (width - 2) 0 false cs
    else scan_digits width 0 false (c ∷ x ∷ cs)

-- a minus sign negates the value modulo the word
negated : Option (ℕ × Bytes) → Option (ℕ × Bytes)
negated none = none
negated (some (n, cs)) = some ((2 ^ 32 - n) % 2 ^ 32, cs)

is_blank : ℕ → Bool
is_blank c = c == b' ' || leb 9 c && leb c 13

-- `%08x` of `sscanf`: white space, a sign, the prefix, at most 8 characters in all but the blanks
scan_hex8 : Bytes → Option (ℕ × Bytes)
unfolding scan_prefix negated is_blank
scan_hex8 [] = none
scan_hex8 (c ∷ cs) =
    if is_blank c
    then scan_hex8 cs
    else if c == b'+'
    then scan_prefix 7 cs
    else if c == b'-'
    then negated (scan_prefix 7 cs)
    else scan_prefix 8 (c ∷ cs)

-- `((int64_t)p1 << 32) + p2`
join_words : ℕ → ℕ → ℤ
join_words p1 p2 = to_int64 (p1 * 2 ^ 32 + p2)

second_word : Option (ℕ × Bytes) → Option ℤ
unfolding join_words
second_word none = none
second_word (some (p1, cs)) = elim (scan_hex8 cs) [
  | none ↦ none
  | some (p2, rest) ↦ some (join_words p1 p2)
]

-- `none` is the exception "illegal id of transaction"
unfoldable pub transaction_index : Bytes → Option ℤ
unfolding scan_hex8 second_word
transaction_index tid = second_word (scan_hex8 tid)
