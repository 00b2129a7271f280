-- ===== src/Parser/PatternEnds.antt =====
-- The scanning of patterns and outputs comes to an end (src/parser/interfaceParser.cpp).
use strus_bindings.Base.{
  ℕ, zero, suc, ◌≤◌, ◌≡◌, ◌≢◌, refl, Bool, true, false, List, [], ◌∷◌, ◌++◌, ◌==◌, if◌then◌else◌,
  Bytes, length, arith, inl, inr, Bool-cases,
}
use strus_bindings.Base.Result.{Result, ok, err}
use strus_bindings.Parser.Lexical.{
  ParseError, stuck, identifier_expected, unknown_token, is_alnum, is_operator, span,
  parse_identifier, skip_while, skip_spaces, starts_alpha,
}
use strus_bindings.Parser.Annotations.{◌>>=◌}
use strus_bindings.Parser.Output.{Chunk, skip_char, scan_variable, scan_output, output_def}
use strus_bindings.Parser.Pattern.{TokenDef, scan_suffix, scan_token, scan_tokens, compile_pattern}

-- The fuel is not used up.
abbrev pub Ends : {A : Type 0} → Result ParseError A → Type 0
Ends (ok a) = Unit
Ends (err e) = e ≢ stuck

bind-Ends :
    {A B : Type 0} (m : Result ParseError A) (f : A → Result ParseError B)
    → Ends m
    → ((a : A) → Ends (f a))
    → Ends (m >>= f)
bind-Ends (ok a) f h k = k a
bind-Ends (err e) f h k = h

if-Ends :
    {A : Type 0} (b : Bool) (m n : Result ParseError A)
    → (b ≡ true → Ends m)
    → (b ≡ false → Ends n)
    → Ends (if b then m else n)
if-Ends true m n h k = h refl
if-Ends false m n h k = k refl

expected_ends : identifier_expected ≢ stuck
expected_ends h = ground arith

unknown_ends : unknown_token ≢ stuck
unknown_ends h = ground arith

length-span : (test : ℕ → Bool) (cs : Bytes) → length (span test cs).1 ≤ length cs
unfolding span
length-span test [] = omega arith
length-span test (c ∷ cs) = elim (Bool-cases (test c)) [
  | inl e ↦ rw e (let h = length-span test cs in omega arith)
  | inr e ↦ rw e (omega arith)
]

length-identifier : (cs : Bytes) → length (parse_identifier cs).1 ≤ length cs
unfolding parse_identifier
length-identifier cs = length-span is_alnum cs

-- An identifier takes its first byte.
length-identifier_first :
    (c : ℕ) (cs : Bytes) → is_alnum c ≡ true → length (parse_identifier (c ∷ cs)).1 ≤ length cs
unfolding parse_identifier span
length-identifier_first c cs h = rw h (length-span is_alnum cs)

length-skip_char : (d : ℕ) (cs : Bytes) → length (skip_char d cs) ≤ length cs
unfolding skip_char
length-skip_char d [] = omega arith
length-skip_char d (c ∷ cs) = ground arith

length-spaces : (cs : Bytes) → length (skip_spaces cs) ≤ length cs
unfolding skip_spaces skip_while
length-spaces [] = omega arith
length-spaces (c ∷ cs) = ground (arith, length-spaces cs)

scan_variable-Ends :
    (again : Bytes → Result ParseError (List Chunk)) (fuel : ℕ) (value src : Bytes)
    → ((rest : Bytes) → length rest ≤ fuel → Ends (again rest))
    → length src ≤ fuel
    → Ends (scan_variable again value src)
unfolding scan_variable
scan_variable-Ends again fuel value src k h = elim (Bool-cases (starts_alpha src)) [
  | inl e ↦
      let rest = (parse_identifier src).1 in
      let one = length-identifier src in
      let two = length-skip_char b'~' rest in
      rw e (
        bind-Ends (again (skip_char b'~' rest)) _ (k (skip_char b'~' rest) (omega arith))
          λ chunks. tt)
  | inr e ↦ rw e expected_ends
]

scan_output-Ends :
    (fuel : ℕ) (value src : Bytes) → length src ≤ fuel → Ends (scan_output fuel value src)
unfolding scan_output
scan_output-Ends zero value [] h = tt
scan_output-Ends (suc fuel) value [] h = tt
scan_output-Ends zero value (c ∷ cs) h = ground arith
scan_output-Ends (suc fuel) value (c ∷ cs) h = elim (Bool-cases (c == b'$')) [
  | inl e ↦ rw e (
      scan_variable-Ends (scan_output fuel []) fuel value cs (scan_output-Ends fuel [])
        (omega arith))
  | inr e ↦ rw e (scan_output-Ends fuel (value ++ (c ∷ [])) cs (omega arith))
]

scan_suffix-Ends :
    (again : Bytes → Result ParseError (List TokenDef)) (fuel : ℕ) (src : Bytes)
    → ((rest : Bytes) → length rest ≤ fuel → Ends (again rest))
    → length src ≤ fuel
    → Ends (scan_suffix again src)
unfolding scan_suffix
scan_suffix-Ends again fuel [] k h = k [] h
scan_suffix-Ends again fuel (c ∷ cs) k h = elim (Bool-cases (c == b'~')) [
  | inl e ↦ elim (Bool-cases (starts_alpha cs)) [
    | inl f ↦
        let rest = (parse_identifier cs).1 in
        let one = length-identifier cs in
        let two = length-spaces rest in
        rw e (
          rw f (
            bind-Ends (again (skip_spaces rest)) _ (k (skip_spaces rest) (omega arith))
              λ tokens. tt))
    | inr f ↦ rw e (rw f expected_ends)
  ]
  | inr e ↦ let one = length-spaces (c ∷ cs) in rw e (k (skip_spaces (c ∷ cs)) (omega arith))
]

scan_token-Ends :
    (again : Bytes → Result ParseError (List TokenDef)) (fuel c : ℕ) (cs : Bytes)
    → ((rest : Bytes) → length rest ≤ fuel → Ends (again rest))
    → length cs ≤ fuel
    → Ends (scan_token again c cs)
unfolding scan_token
scan_token-Ends again fuel c cs k h =
    if-Ends (is_alnum c) _ _
      (λ e.
        let rest = (parse_identifier (c ∷ cs)).1 in
        let one = length-identifier_first c cs e in
        let two = length-spaces rest in
        bind-Ends (again (skip_spaces rest)) _ (k (skip_spaces rest) (omega arith)) λ tokens. tt)
      (λ e.
        if-Ends (is_operator c) _ _
          (λ f.
            let two = length-spaces cs in
            bind-Ends (again (skip_spaces cs)) _ (k (skip_spaces cs) (omega arith)) λ tokens. tt)
          (λ f.
            if-Ends (c == b'$') _ _
              (λ g.
                if-Ends (starts_alpha cs) _ _
                  (λ a.
                    let rest = (parse_identifier cs).1 in
                    let one = length-identifier cs in
                    bind-Ends (scan_suffix again rest) _
                      (scan_suffix-Ends again fuel rest k (omega arith)) λ tokens. tt)
                  (λ a. expected_ends))
              (λ g. unknown_ends)))

scan_tokens-Ends : (fuel : ℕ) (src : Bytes) → length src ≤ fuel → Ends (scan_tokens fuel src)
unfolding scan_tokens
scan_tokens-Ends zero [] h = tt
scan_tokens-Ends (suc fuel) [] h = tt
scan_tokens-Ends zero (c ∷ cs) h = ground arith
scan_tokens-Ends (suc fuel) (c ∷ cs) h =
    scan_token-Ends (scan_tokens fuel) fuel c cs (scan_tokens-Ends fuel) (omega arith)

-- The scanning of a pattern and that of an output end on every text, with as many rounds as the text
-- has bytes.
pub compile_pattern-Ends : (src : Bytes) → Ends (compile_pattern src) × Ends (output_def src)
unfolding compile_pattern output_def
compile_pattern-Ends src = (
  scan_tokens-Ends (length src) (skip_spaces src) (length-spaces src),
  scan_output-Ends (length src) [] src (omega arith),
)
