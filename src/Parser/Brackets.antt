-- ===== src/Parser/Brackets.antt =====
-- Brackets are closed where they are balanced (src/parser/interfaceParser.cpp).
use strus_bindings.Base.{
  ℕ, zero, suc, ◌+◌, ◌≡◌, ◌≢◌, sym, ap, ◌∙◌, true, false, [], ◌∷◌, ◌++◌, ◌==◌, if◌then◌else◌, Bytes,
  arith, inl, inr, Bool-cases,
}
use strus_bindings.Base.Result.{ok}
use strus_bindings.Parser.Comments.{close_brackets}

-- how often a byte occurs
unfoldable pub count : ℕ → Bytes → ℕ
count d [] = 0
count d (c ∷ cs) = let n = count d cs in if c == d then suc n else n

-- The text is a part with as many closing as opening brackets and closing ones for those that were
-- open but one, the last closing bracket, and the rest.
abbrev pub Closes : (sb eb extra : ℕ) → (cs rest : Bytes) → Type 0
Closes sb eb extra cs rest =
    (inside : Bytes) × ((inside ++ (eb ∷ rest) ≡ cs) × (count eb inside ≡ count sb inside + extra))

Closes-other :
    (sb eb extra c : ℕ) (cs rest : Bytes)
    → (c == sb) ≡ false
    → (c == eb) ≡ false
    → Closes sb eb extra cs rest
    → Closes sb eb extra (c ∷ cs) rest
unfolding count
Closes-other sb eb extra c cs rest h k (inside, (e, n)) =
    (c ∷ inside, (ap (λ ds. c ∷ ds) e, rw h (rw k n)))

Closes-open :
    (sb eb extra c : ℕ) (cs rest : Bytes)
    → (c == sb) ≡ true
    → (c == eb) ≡ false
    → Closes sb eb (suc extra) cs rest
    → Closes sb eb extra (c ∷ cs) rest
unfolding count
Closes-open sb eb extra c cs rest h k (inside, (e, n)) =
    (c ∷ inside, (ap (λ ds. c ∷ ds) e, rw h (rw k (omega (arith, n)))))

Closes-close :
    (sb eb extra c : ℕ) (cs rest : Bytes)
    → (c == sb) ≡ false
    → (c == eb) ≡ true
    → Closes sb eb extra cs rest
    → Closes sb eb (suc extra) (c ∷ cs) rest
unfolding count
Closes-close sb eb extra c cs rest h k (inside, (e, n)) =
    (c ∷ inside, (ap (λ ds. c ∷ ds) e, rw h (rw k (omega (arith, n)))))

Closes-here :
    (sb eb c : ℕ) (cs rest : Bytes) → (c == eb) ≡ true → cs ≡ rest → Closes sb eb 0 (c ∷ cs) rest
unfolding count
Closes-here sb eb c cs rest f e =
    let same : c ≡ eb = ground arith in
    ([], (ap (λ d. d ∷ rest) (sym same) ∙ ap (λ ds. c ∷ ds) (sym e), omega arith))

different : (sb eb c : ℕ) → sb ≢ eb → (c == sb) ≡ true → (c == eb) ≡ false
different sb eb c n h = ground arith

-- Where the loop over two different brackets returns, what it has passed is balanced.
pub close_brackets-Closes :
    (sb eb extra : ℕ) (cs rest : Bytes)
    → sb ≢ eb
    → close_brackets sb eb extra cs ≡ ok rest
    → Closes sb eb extra cs rest
unfolding close_brackets
close_brackets-Closes sb eb extra [] rest n h = ground arith
close_brackets-Closes sb eb zero (c ∷ cs) rest n h = elim (Bool-cases (c == sb)) [
  | inl e ↦
      Closes-open sb eb 0 c cs rest e (different sb eb c n e)
        (close_brackets-Closes sb eb 1 cs rest n (ground arith))
  | inr e ↦ elim (Bool-cases (c == eb)) [
    | inl f ↦ Closes-here sb eb c cs rest f (ground arith)
    | inr f ↦
        Closes-other sb eb 0 c cs rest e f (close_brackets-Closes sb eb 0 cs rest n (ground arith))
  ]
]
close_brackets-Closes sb eb (suc extra) (c ∷ cs) rest n h = elim (Bool-cases (c == sb)) [
  | inl e ↦
      Closes-open sb eb (suc extra) c cs rest e (different sb eb c n e)
        (close_brackets-Closes sb eb (suc (suc extra)) cs rest n (ground arith))
  | inr e ↦ elim (Bool-cases (c == eb)) [
    | inl f ↦
        Closes-close sb eb extra c cs rest e f
          (close_brackets-Closes sb eb extra cs rest n (ground arith))
    | inr f ↦
        Closes-other sb eb (suc extra) c cs rest e f
          (close_brackets-Closes sb eb (suc extra) cs rest n (ground arith))
  ]
]
