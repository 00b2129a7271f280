-- ===== src/WebRequest/PathBuf/Rest.antt =====
-- The rest of a path and the test of its next name (src/webrequest/pathBuf.hpp).
use strus_bindings.Base.{
  ℕ, zero, suc, ◌+◌, ◌-◌, ◌≡◌, refl, ap, sym, ◌∙◌, true, false, ◌&&◌, some, [], ◌∷◌, ◌++◌, ltb,
  ◌==◌, ◌↔◌, if◌then◌else◌, Bytes, eq_bytes, eq_bytes_iff, length, length-append, take, arith, inl,
  inr, Bool-cases,
}
use strus_bindings.WebRequest.PathBuf.{
  PathBuf, slash, take_name, first_byte, starts_with, has_more, get_next, next_of, trim_slashes,
  enditr, cut_at, cut_rest, equals_name, rest_text, get_rest,
}
use strus_bindings.WebRequest.PathBuf.Names.{IsTight}

trim-append :
    (xs ys : Bytes)
    → (length (trim_slashes ys) == 0) ≡ false
    → trim_slashes (xs ++ ys) ≡ xs ++ trim_slashes ys
unfolding trim_slashes
trim-append [] ys h = refl
trim-append (x ∷ xs) ys h =
    let e = trim-append xs ys h in
    let l = length-append xs (trim_slashes ys) in
    let k : (length (xs ++ trim_slashes ys) == 0) ≡ false = ground (arith, l, h) in
    elim (Bool-cases (x == slash)) [ inl s ↦ rw e (rw s (rw k refl)) | inr s ↦ rw e (rw s refl) ]

take-length-trim : (cs : Bytes) → take (length (trim_slashes cs)) cs ≡ trim_slashes cs
unfolding trim_slashes
take-length-trim [] = refl
take-length-trim (c ∷ cs) = elim (Bool-cases (c == slash && length (trim_slashes cs) == 0)) [
  | inl e ↦ rw e refl
  | inr e ↦ rw e (ap (λ more. c ∷ more) (take-length-trim cs))
]

trim_slashes_tight :
    (c : ℕ) (cs : Bytes) → (c == slash) ≡ false → trim_slashes (c ∷ cs) ≡ c ∷ trim_slashes cs
unfolding trim_slashes
trim_slashes_tight c cs h = rw h refl

abbrev pub OnlySlashes : Bytes → Type 0
OnlySlashes [] = Unit
OnlySlashes (c ∷ cs) = ((c == slash) ≡ true) × OnlySlashes cs

abbrev pub NoSlashEnd : Bytes → Type 0
NoSlashEnd [] = Unit
NoSlashEnd (c ∷ []) = (c == slash) ≡ false
NoSlashEnd (c ∷ d ∷ ds) = NoSlashEnd (d ∷ ds)

-- The first text is the second one without the slashes at its end.
abbrev pub Trimmed : Bytes → Bytes → Type 0
Trimmed t cs = NoSlashEnd t × ((tail : Bytes) × (OnlySlashes tail × (t ++ tail ≡ cs)))

Trimmed-cons :
    (c : ℕ) (t cs : Bytes)
    → Trimmed t cs
    → Trimmed (if c == slash && length t == 0 then [] else c ∷ t) (c ∷ cs)
Trimmed-cons c [] cs (p, (tail, (o, e))) = elim (Bool-cases (c == slash)) [
  | inl s ↦ rw s (tt, (c ∷ tail, ((s, o), ap (λ xs. c ∷ xs) e)))
  | inr s ↦ rw s (s, (tail, (o, ap (λ xs. c ∷ xs) e)))
]
Trimmed-cons c (x ∷ xs) cs (p, (tail, (o, e))) =
    let more : (c == slash && length (x ∷ xs) == 0) ≡ false = ground arith in
    rw more (p, (tail, (o, ap (λ ys. c ∷ ys) e)))

trim_slashes-Trimmed : (cs : Bytes) → Trimmed (trim_slashes cs) cs
unfolding trim_slashes
trim_slashes-Trimmed [] = (tt, ([], (tt, refl)))
trim_slashes-Trimmed (c ∷ cs) = Trimmed-cons c (trim_slashes cs) cs (trim_slashes-Trimmed cs)

cut_at_sum : (before rest : Bytes) (m : ℕ) → cut_at before rest (length before + m) ≡ take m rest
unfolding cut_at
cut_at_sum before rest m =
    let lt : ltb (length before + m) (length before) ≡ false = ground arith in
    let sub : length before + m - length before ≡ m = omega arith in rw lt (rw sub refl)

cut_rest-name :
    (before : Bytes) (c : ℕ) (cs : Bytes)
    → (c == slash) ≡ false
    → cut_rest (record { before = before; rest = c ∷ cs }) ≡ trim_slashes (c ∷ cs)
unfolding cut_rest enditr
cut_rest-name before c cs h =
    let some_left : (length (trim_slashes (c ∷ cs)) == 0) ≡ false =
      ap (λ t. length t == 0) (trim_slashes_tight c cs h) ∙ ground arith in
    let where_it_ends : length (trim_slashes (before ++ c ∷ cs))
        ≡ length before + length (trim_slashes (c ∷ cs)) =
      ap length (trim-append before (c ∷ cs) some_left)
      ∙ length-append before (trim_slashes (c ∷ cs)) in
    ap (cut_at before (c ∷ cs)) where_it_ends
    ∙ cut_at_sum before (c ∷ cs) (length (trim_slashes (c ∷ cs)))
    ∙ take-length-trim (c ∷ cs)

take_nothing : (n : ℕ) → take {A = ℕ} n [] ≡ []
take_nothing zero = refl
take_nothing (suc n) = refl

cut_at_end : (before : Bytes) (n : ℕ) → cut_at before [] n ≡ []
unfolding cut_at
cut_at_end before n = elim (Bool-cases (ltb n (length before))) [
  | inl e ↦ rw e refl
  | inr e ↦ rw e (take_nothing (n - length before))
]

cut_rest-end : (before : Bytes) → cut_rest (record { before = before; rest = [] }) ≡ trim_slashes []
unfolding cut_rest trim_slashes
cut_rest-end before = cut_at_end before (enditr (record { before = before; rest = [] }))

cut_rest-text :
    (before rest : Bytes)
    → IsTight rest
    → cut_rest (record { before = before; rest = rest }) ≡ trim_slashes rest
cut_rest-text before [] t = cut_rest-end before
cut_rest-text before (c ∷ cs) t = cut_rest-name before c cs t

cut_rest-trim : (s : PathBuf) → IsTight s.rest → cut_rest s ≡ trim_slashes s.rest
cut_rest-trim s t = cut_rest-text s.before s.rest t

-- At a name, both readings of the rest return the text up to the end without the slashes at its end,
-- whatever stands before the iterator; after `getRest` nothing is left to read.
pub get_rest-trims :
    (s : PathBuf)
    → IsTight s.rest
    → Trimmed (get_rest s).0 s.rest
      × ((rest_text s).0 ≡ (get_rest s).0)
      × (has_more (get_rest s).1 ≡ false)
unfolding get_rest rest_text has_more
get_rest-trims s t = (rw (cut_rest-trim s t) (trim_slashes-Trimmed s.rest), refl, refl)

take_all : (cs : Bytes) → take (length cs) cs ≡ cs
take_all [] = refl
take_all (c ∷ cs) = ap (λ more. c ∷ more) (take_all cs)

take-length-name : (cs : Bytes) → take (length (take_name cs).0) cs ≡ (take_name cs).0
unfolding take_name
take-length-name [] = refl
take-length-name (c ∷ cs) = elim (Bool-cases (c == slash)) [
  | inl e ↦ rw e refl
  | inr e ↦ rw e (ap (λ more. c ∷ more) (take-length-name cs))
]

first_byte-name :
    (c : ℕ) (cs : Bytes)
    → (c == slash) ≡ false
    → first_byte (c ∷ cs) ≡ first_byte (take_name (c ∷ cs)).0
unfolding first_byte take_name
first_byte-name c cs t = rw t refl

some_inj : {a b : Bytes} → some a ≡ some b → a ≡ b
some_inj h = ground arith

equals_name-name :
    (rest name : Bytes)
    → take (length name) rest ≡ name
    → first_byte rest ≡ first_byte name
    → equals_name name (length name) rest name ≡ true
unfolding equals_name
equals_name-name rest name taken first =
    let same : eq_bytes name name ≡ true = (eq_bytes_iff name name).1 refl in
    rw (take_all name) (rw taken (ground (arith, first, same)))

equals_name_iff :
    (prefix rest name : Bytes)
    → take (length name) rest ≡ name
    → first_byte rest ≡ first_byte name
    → (equals_name prefix (length prefix) rest name ≡ true) ↔ (prefix ≡ name)
unfolding equals_name
equals_name_iff prefix rest name taken first = (
  (λ h.
      let same_length : length prefix ≡ length name = ground arith in
      let same : eq_bytes (take (length prefix) prefix) (take (length prefix) rest) ≡ true =
        ground arith in
      let compared : eq_bytes prefix name ≡ true =
        ap (eq_bytes prefix) (sym taken ∙ ap (λ n. take n rest) (sym same_length))
        ∙ ap (λ p. eq_bytes p (take (length prefix) rest)) (sym (take_all prefix))
        ∙ same in
      (eq_bytes_iff prefix name).0 compared),
  λ e. ap (λ p. equals_name p (length p) rest name) e ∙ equals_name-name rest name taken first,
)

starts_with_at :
    (before rest prefix : Bytes)
    → IsTight rest
    → has_more (record { before = before; rest = rest }) ≡ true
    → (starts_with prefix (length prefix) (record { before = before; rest = rest }) ≡ true)
      ↔ ((get_next (record { before = before; rest = rest })).0 ≡ some prefix)
unfolding has_more starts_with get_next next_of
starts_with_at before [] prefix t m = ground arith
starts_with_at before (c ∷ cs) prefix t m =
    let name = (take_name (c ∷ cs)).0 in
    let same =
      equals_name_iff prefix (c ∷ cs) name (take-length-name (c ∷ cs)) (first_byte-name c cs t) in
    (λ h. ap some (sym (same.0 h)), λ e. same.1 (sym (some_inj e)))

-- Where names are left, the test for a prefix finds out whether it is the next name.
pub starts_with_iff :
    (prefix : Bytes) (s : PathBuf)
    → IsTight s.rest
    → has_more s ≡ true
    → (starts_with prefix (length prefix) s ≡ true) ↔ ((get_next s).0 ≡ some prefix)
starts_with_iff prefix s t m = starts_with_at s.before s.rest prefix t m
