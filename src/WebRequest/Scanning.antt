-- ===== src/WebRequest/Scanning.antt =====
-- Words of a header (src/webrequest/webRequestUtils.cpp): the scanning ends and stays in its buffer.
use strus_bindings.Base.{
  ℕ, ◌+◌, ◌<◌, ◌≤◌, ◌≡◌, refl, Bool, Option, none, some, [], ◌∷◌, leb, Bytes, length, arith, inl,
  inr, Bool-cases,
}
use strus_bindings.Base.Result.{Result, ok, err}
use strus_bindings.WebRequest.Content.{
  Fault, thrown, stuck, push_char, skip_spaces, scan_while, close_word, parse_ident, parse_token,
  is_letter, or_32, is_token_char, ◌>>=◌,
}
use strus_bindings.WebRequest.Accept.{push_all}

-- The computation does not run out of fuel, and what it returns has the property.
abbrev pub Ensures : {A : Type 0} → (A → Type 0) → Result Fault A → Type 0
Ensures P (ok a) = P a
Ensures P (err thrown) = Unit
Ensures P (err stuck) = ⊥

pub bind-Ensures :
    {A B : Type 0} (P : A → Type 0) (Q : B → Type 0) (m : Result Fault A) (f : A → Result Fault B)
    → Ensures P m
    → ((a : A) → P a → Ensures Q (f a))
    → Ensures Q (m >>= f)
bind-Ensures P Q (ok a) f h k = k a h
bind-Ensures P Q (err thrown) f h k = tt
bind-Ensures P Q (err stuck) f h k = h

pub length-skip_spaces : (cs : Bytes) → length (skip_spaces cs) ≤ length cs
unfolding skip_spaces
length-skip_spaces [] = omega arith
length-skip_spaces (c ∷ cs) = ground (arith, length-skip_spaces cs)

pub push_char-Ensures : (size at : ℕ) → Ensures (λ next. next < size) (push_char size at)
unfolding push_char
push_char-Ensures size at = elim (Bool-cases (leb size (at + 1))) [
  | inl e ↦ rw e tt
  | inr e ↦ rw e (ground arith)
]

pub push_all-Ensures : (size at : ℕ) (cs : Bytes) → Ensures (λ next. Unit {0}) (push_all size at cs)
unfolding push_all
push_all-Ensures size at [] = tt
push_all-Ensures size at (c ∷ cs) =
    bind-Ensures (λ next. next < size) (λ next. Unit {0}) (push_char size at) _
      (push_char-Ensures size at) (λ next _. push_all-Ensures size next cs)

-- What is scanned and what is left make up the source.
abbrev Splits : Bytes → Bytes × Bytes × ℕ → Type 0
Splits cs t = length t.0 + length t.1 ≡ length cs

scan_while-Ensures :
    (test : ℕ → Bool) (f : ℕ → ℕ) (size at : ℕ) (cs : Bytes)
    → Ensures (Splits cs) (scan_while test f size at cs)
unfolding scan_while
scan_while-Ensures test f size at [] = refl
scan_while-Ensures test f size at (c ∷ cs) = elim (Bool-cases (test c)) [
  | inl e ↦ rw e (
      bind-Ensures (λ next. next < size) (Splits (c ∷ cs)) (push_char size at) _
        (push_char-Ensures size at)
        λ next _.
          bind-Ensures (Splits cs) (Splits (c ∷ cs)) (scan_while test f size next cs) _
            (scan_while-Ensures test f size next cs) λ t h. omega arith)
  | inr e ↦ rw e (omega arith)
]

-- A word that is found is not empty.
abbrev pub Shortens : Bytes → Option (Bytes × Bytes) → Type 0
Shortens cs none = Unit
Shortens cs (some (word, rest)) = length rest < length cs

close_word-Ensures :
    (size : ℕ) (cs : Bytes) (t : Bytes × Bytes × ℕ)
    → Splits cs t
    → Ensures (Shortens cs) (close_word size t)
unfolding close_word
close_word-Ensures size cs ([], rest, at) h = tt
close_word-Ensures size cs (c ∷ word, rest, at) h =
    bind-Ensures (λ next. next < size) (Shortens cs) (push_char size at) _
      (push_char-Ensures size at) λ next _. omega (arith, length-skip_spaces rest)

Shortens-le :
    (cs ds : Bytes) (o : Option (Bytes × Bytes))
    → length cs ≤ length ds
    → Shortens cs o
    → Shortens ds o
Shortens-le cs ds none h s = tt
Shortens-le cs ds (some (word, rest)) h s = omega arith

pub Ensures-mono :
    {A : Type 0} (P Q : A → Type 0) (r : Result Fault A)
    → ((a : A) → P a → Q a)
    → Ensures P r
    → Ensures Q r
Ensures-mono P Q (ok a) h e = h a e
Ensures-mono P Q (err thrown) h e = tt
Ensures-mono P Q (err stuck) h e = e

scan_word-Ensures :
    (test : ℕ → Bool) (f : ℕ → ℕ) (size : ℕ) (src : Bytes)
    → Ensures
        (Shortens src)
        (scan_while test f size 0 (skip_spaces src) >>= λ scanned. close_word size scanned)
scan_word-Ensures test f size src =
    bind-Ensures (Splits (skip_spaces src)) (Shortens src)
      (scan_while test f size 0 (skip_spaces src)) _
      (scan_while-Ensures test f size 0 (skip_spaces src))
      λ t h.
        Ensures-mono (Shortens (skip_spaces src)) (Shortens src) (close_word size t)
          (λ o. Shortens-le (skip_spaces src) src o (length-skip_spaces src))
          (close_word-Ensures size (skip_spaces src) t h)

pub parse_ident-Ensures : (src : Bytes) (size : ℕ) → Ensures (Shortens src) (parse_ident src size)
unfolding parse_ident
parse_ident-Ensures src size = scan_word-Ensures is_letter or_32 size src

pub parse_token-Ensures : (src : Bytes) (size : ℕ) → Ensures (Shortens src) (parse_token src size)
unfolding parse_token
parse_token-Ensures src size = scan_word-Ensures is_token_char (λ c. c) size src
