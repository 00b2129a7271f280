-- ===== src/Parser/Overrun.antt =====
-- Block comments, and the one at the end of the source (src/parser/interfaceParser.cpp).
use strus_bindings.Base.{
  ℕ, suc, ◌-◌, ◌≡◌, refl, sym, ap, ◌∙◌, true, false, ◌&&◌, [], ◌∷◌, ◌++◌, ltb, ◌==◌, Bytes, codes,
  eq_bytes, length, length-append, take, arith,
}
use strus_bindings.Base.Result.{ok, err}
use strus_bindings.Parser.Lexical.{
  overrun, first_is, may_start, starts, skip_to_str, contains, skip_spaces, skip_while, is_space,
  is_eoln_comment, is_block_comment,
}
use strus_bindings.Parser.Annotations.{◌>>=◌}
use strus_bindings.Parser.Comments.{
  step_two, closed_by, close_block, skip_comment, skip_comments, skip_spaces_and_comments,
}

-- Neither a star nor a backslash is in the text.
abbrev pub IsPlain : Bytes → Type 0
IsPlain [] = Unit
IsPlain (c ∷ cs) = ((c == b'*') ≡ false) × ((c == b'\\') ≡ false) × IsPlain cs

abbrev pub closing : Bytes
closing = codes "*/"

skip_to_str_step :
    (c d : ℕ) (ds : Bytes)
    → (c == b'*') ≡ false
    → (c == b'\\') ≡ false
    → skip_to_str (c ∷ d ∷ ds) closing ≡ skip_to_str (d ∷ ds) closing
unfolding skip_to_str may_start first_is
skip_to_str_step c d ds h k =
    let no : (ltb 2 (suc (suc (length ds))) && c == b'*') ≡ false = ground arith in
    rw no (rw k refl)

-- what stands in front of a text that has two bytes at least
skip_to_str-plain :
    (text : Bytes) (d e : ℕ) (rest : Bytes)
    → IsPlain text
    → skip_to_str (text ++ (d ∷ e ∷ rest)) closing ≡ skip_to_str (d ∷ e ∷ rest) closing
skip_to_str-plain [] d e rest p = refl
skip_to_str-plain (c ∷ []) d e rest p = skip_to_str_step c d (e ∷ rest) p.0 p.1
skip_to_str-plain (c ∷ b ∷ text) d e rest p =
    skip_to_str_step c b (text ++ (d ∷ e ∷ rest)) p.0 p.1
    ∙ skip_to_str-plain (b ∷ text) d e rest p.2

contains-plain :
    (text more : Bytes)
    → IsPlain text
    → contains b'\\' more ≡ false
    → contains b'\\' (text ++ more) ≡ false
unfolding contains
contains-plain [] more p h = h
contains-plain (c ∷ text) more p h = ground (arith, p.1, contains-plain text more p.2 h)

take_exact : (xs ys : Bytes) → take (length xs) (xs ++ ys) ≡ xs
take_exact [] ys = refl
take_exact (x ∷ xs) ys = ap (λ more. x ∷ more) (take_exact xs ys)

append_nil : (xs : Bytes) → xs ++ [] ≡ xs
append_nil [] = refl
append_nil (x ∷ xs) = ap (λ ys. x ∷ ys) (append_nil xs)

-- The text that was skipped has no annotation.
closed_by-front :
    (xs ys : Bytes) → contains b'\\' xs ≡ false → closed_by (xs ++ ys) ys ≡ step_two ys
unfolding closed_by
closed_by-front xs ys h =
    let front : length (xs ++ ys) - length ys ≡ length xs = omega (arith, length-append xs ys) in
    rw front (rw (take_exact xs ys) (rw h refl))

close_block_end : (text : Bytes) → IsPlain text → close_block (text ++ closing) ≡ err overrun
unfolding close_block skip_to_str eq_bytes step_two contains
close_block_end text p =
    let start = text ++ closing in
    let nothing : closed_by start [] ≡ err overrun =
      ap (λ xs. closed_by xs []) (sym (append_nil start))
      ∙ closed_by-front start [] (contains-plain text closing p refl) in
    ap (closed_by start) (skip_to_str-plain text b'*' b'/' [] p) ∙ nothing

skip_to_str_found :
    (c : ℕ) (cs : Bytes) → skip_to_str (b'*' ∷ b'/' ∷ c ∷ cs) closing ≡ b'*' ∷ b'/' ∷ c ∷ cs
unfolding skip_to_str may_start starts first_is eq_bytes
skip_to_str_found c cs =
    let room : ltb 2 (suc (suc (suc (length cs)))) ≡ true = ground arith in rw room refl

close_block_inside :
    (text : Bytes) (c : ℕ) (cs : Bytes)
    → IsPlain text
    → close_block (text ++ (b'*' ∷ b'/' ∷ c ∷ cs)) ≡ ok (c ∷ cs)
unfolding close_block step_two contains
close_block_inside text c cs p =
    let rest = b'*' ∷ b'/' ∷ c ∷ cs in
    let plain : contains b'\\' text ≡ false =
      ap (contains b'\\') (sym (append_nil text)) ∙ contains-plain text [] p refl in
    ap (closed_by (text ++ rest))
      (skip_to_str-plain text b'*' b'/' (c ∷ cs) p ∙ skip_to_str_found c cs)
    ∙ closed_by-front text rest plain

-- A block comment without stars and backslashes is passed if a byte follows it; the same comment at the
-- very end of the source makes the scanner read behind the source.
pub skip_spaces_and_comments-block :
    (text : Bytes)
    → IsPlain text
    → (skip_spaces_and_comments (b'/' ∷ b'*' ∷ (text ++ codes "*/")) ≡ err overrun)
      × ((c : ℕ) (cs : Bytes) → close_block (text ++ (b'*' ∷ b'/' ∷ c ∷ cs)) ≡ ok (c ∷ cs))
unfolding skip_spaces_and_comments skip_comments skip_comment skip_spaces is_eoln_comment
    is_block_comment skip_while is_space
skip_spaces_and_comments-block text p = (
  ap (λ r. r >>= skip_comments (suc (length (text ++ closing)))) (close_block_end text p),
  λ c cs. close_block_inside text c cs p,
)
