-- ===== src/Parser/Skipping.antt =====
-- Skipping spaces and comments comes to an end (src/parser/interfaceParser.cpp).
use strus_bindings.Base.{
  ℕ, zero, suc, ◌-◌, ◌≤◌, ◌≡◌, ◌≢◌, refl, Bool, true, false, [], ◌∷◌, ◌==◌, Bytes, codes, length,
  drop, length-drop, take, arith, inl, inr, Bool-cases,
}
use strus_bindings.Base.Result.{Result, ok, err}
use strus_bindings.Parser.Lexical.{
  ParseError, overrun, stuck, unexpected_annotation, is_space, skip_to_str, contains, skip_spaces,
  skip_while, skip_to_eoln, no_eoln, is_eoln_comment, is_block_comment,
}
use strus_bindings.Parser.Annotations.{◌>>=◌}
use strus_bindings.Parser.Comments.{
  step_two, closed_by, close_block, starts_annotation, skip_comment, skip_comments,
  skip_spaces_and_comments,
}

abbrev StartsNoSpace : Bytes → Type 0
StartsNoSpace [] = Unit
StartsNoSpace (c ∷ cs) = is_space c ≡ false

-- The text starts neither with a space nor with a comment.
abbrev pub IsClean : Bytes → Type 0
IsClean src = (is_eoln_comment src ≡ false) × (is_block_comment src ≡ false) × StartsNoSpace src

-- A clean rest is returned, or an exception is thrown; the fuel is not used up.
abbrev pub EndsClean : Result ParseError Bytes → Type 0
EndsClean (ok rest) = IsClean rest
EndsClean (err e) = e ≢ stuck

abbrev EndsWithin : ℕ → Result ParseError Bytes → Type 0
EndsWithin n (ok rest) = length rest ≤ n
EndsWithin n (err e) = e ≢ stuck

bind-EndsClean :
    (n : ℕ) (m : Result ParseError Bytes) (f : Bytes → Result ParseError Bytes)
    → EndsWithin n m
    → ((rest : Bytes) → length rest ≤ n → EndsClean (f rest))
    → EndsClean (m >>= f)
bind-EndsClean n (ok rest) f h k = k rest h
bind-EndsClean n (err e) f h k = h

overrun_ends : overrun ≢ stuck
overrun_ends h = ground arith

unexpected_ends : unexpected_annotation ≢ stuck
unexpected_ends h = ground arith

length-skip_while : (test : ℕ → Bool) (cs : Bytes) → length (skip_while test cs) ≤ length cs
unfolding skip_while
length-skip_while test [] = omega arith
length-skip_while test (c ∷ cs) = ground (arith, length-skip_while test cs)

length-skip_spaces : (cs : Bytes) → length (skip_spaces cs) ≤ length cs
unfolding skip_spaces
length-skip_spaces cs = length-skip_while is_space cs

skip_spaces-StartsNoSpace : (cs : Bytes) → StartsNoSpace (skip_spaces cs)
unfolding skip_spaces skip_while
skip_spaces-StartsNoSpace [] = tt
skip_spaces-StartsNoSpace (c ∷ cs) = elim (Bool-cases (is_space c)) [
  | inl e ↦ rw e (skip_spaces-StartsNoSpace cs)
  | inr e ↦ rw e e
]

length-skip_to_str : (cs str : Bytes) → length (skip_to_str cs str) ≤ length cs
unfolding skip_to_str
length-skip_to_str [] str = omega arith
length-skip_to_str (c ∷ []) str = omega arith
length-skip_to_str (c ∷ d ∷ ds) str =
    ground (arith, length-skip_to_str (d ∷ ds) str, length-skip_to_str ds str)

step_two-EndsWithin : (n : ℕ) (cs : Bytes) → length cs ≤ n → EndsWithin n (step_two cs)
unfolding step_two
step_two-EndsWithin n [] h = overrun_ends
step_two-EndsWithin n (c ∷ []) h = overrun_ends
step_two-EndsWithin n (c ∷ d ∷ ds) h = omega arith

close_block-EndsWithin :
    (n : ℕ) (start : Bytes) → length start ≤ n → EndsWithin n (close_block start)
unfolding close_block closed_by
close_block-EndsWithin n start h =
    let rest = skip_to_str start (codes "*/") in
    let le = length-skip_to_str start (codes "*/") in
    elim (Bool-cases (contains b'\\' (take (length start - length rest) start))) [
      | inl e ↦ rw e unexpected_ends
      | inr e ↦ rw e (step_two-EndsWithin n rest (omega arith))
    ]

eoln_comment-shorter :
    (src : Bytes)
    → is_eoln_comment src ≡ true
    → suc (length (skip_to_eoln (skip_while (λ c. c == b'/') src))) ≤ length src
unfolding is_eoln_comment skip_while skip_to_eoln
eoln_comment-shorter [] h = ground arith
eoln_comment-shorter (c ∷ []) h = ground arith
eoln_comment-shorter (c ∷ d ∷ ds) h =
    let first : (c == b'/') ≡ true = ground arith in
    let inner = skip_while (λ b. b == b'/') (d ∷ ds) in
    let one = length-skip_while no_eoln inner in
    let two = length-skip_while (λ b. b == b'/') (d ∷ ds) in rw first (omega (arith, one, two))

skip_comment-EndsClean :
    (again : Bytes → Result ParseError Bytes) (fuel : ℕ) (src : Bytes)
    → ((rest : Bytes) → length rest ≤ fuel → EndsClean (again rest))
    → StartsNoSpace src
    → length src ≤ suc fuel
    → EndsClean (skip_comment again src)
unfolding skip_comment
skip_comment-EndsClean again fuel src k s h =
    let inner = skip_while (λ c. c == b'/') src in
    elim (Bool-cases (is_eoln_comment src)) [
      | inl e ↦ elim (Bool-cases (starts_annotation inner)) [
        | inl f ↦ rw e (rw f unexpected_ends)
        | inr f ↦
            let shorter = eoln_comment-shorter src e in
            rw e (rw f (k (skip_to_eoln inner) (omega arith)))
      ]
      | inr e ↦ elim (Bool-cases (is_block_comment src)) [
        | inl f ↦ rw e (
            rw f (
              bind-EndsClean fuel (close_block (drop 2 src)) again
                (close_block-EndsWithin fuel (drop 2 src) (omega (arith, length-drop 2 src, h))) k))
        | inr f ↦ rw e (rw f (e, f, s))
      ]
    ]

skip_comments-EndsClean :
    (fuel : ℕ) (src : Bytes) → length src ≤ fuel → EndsClean (skip_comments fuel src)
unfolding skip_comments is_eoln_comment is_block_comment
skip_comments-EndsClean zero [] h = (refl, refl, tt)
skip_comments-EndsClean (suc fuel) [] h = (refl, refl, tt)
skip_comments-EndsClean zero (c ∷ cs) h = ground arith
skip_comments-EndsClean (suc fuel) (c ∷ cs) h =
    let shorter : length (skip_spaces (c ∷ cs)) ≤ length (c ∷ cs) = length-skip_spaces (c ∷ cs) in
    skip_comment-EndsClean (skip_comments fuel) fuel (skip_spaces (c ∷ cs))
      (skip_comments-EndsClean fuel) (skip_spaces-StartsNoSpace (c ∷ cs)) (omega arith)

-- Skipping spaces and comments ends on every source, with as many rounds as it has bytes: it throws, it
-- moves the pointer behind the end of the source, or what it returns starts neither with a space nor
-- with a comment.
pub skip_spaces_and_comments-EndsClean : (src : Bytes) → EndsClean (skip_spaces_and_comments src)
unfolding skip_spaces_and_comments
skip_spaces_and_comments-EndsClean src = skip_comments-EndsClean (length src) src (omega arith)
