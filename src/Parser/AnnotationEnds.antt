-- ===== src/Parser/AnnotationEnds.antt =====
-- The scanning of annotations comes to an end (src/parser/interfaceParser.cpp).
use strus_bindings.Base.{
  ℕ, ◌≤◌, ◌≡◌, ◌≢◌, refl, Bool, true, false, not, ◌&&◌, ◌||◌, [], ◌∷◌, leb, ◌==◌, if◌then◌else◌,
  Bytes, codes, eq_bytes, is_empty, length, arith, inl, inr, Bool-cases,
}
use strus_bindings.Base.Result.{Result, ok, err}
use strus_bindings.Parser.Lexical.{
  ParseError, stuck, is_alpha, is_alnum, is_space, no_eoln, span, parse_identifier, skip_while,
  skip_spaces, skip_to_eoln, line,
}
use strus_bindings.Parser.Annotations.{
  ◌>>=◌, AnnotationMap, AnnotationMapBuilder, has_annotation, add_to, add_annotation, related_key,
  close_bracket, skip_param_kind, name_key, tag_key, value_line, extract_at,
}

-- What is returned has the property; the fuel is not used up.
abbrev pub EndsIn : {A : Type 0} → (A → Type 0) → Result ParseError A → Type 0
EndsIn P (ok a) = P a
EndsIn P (err e) = e ≢ stuck

pub bind-EndsIn :
    {A B : Type 0} (P : A → Type 0) (Q : B → Type 0) (m : Result ParseError A)
    (f : A → Result ParseError B)
    → EndsIn P m
    → ((a : A) → P a → EndsIn Q (f a))
    → EndsIn Q (m >>= f)
bind-EndsIn P Q (ok a) f h k = k a h
bind-EndsIn P Q (err e) f h k = h

pub if-EndsIn :
    {A : Type 0} (P : A → Type 0) (b : Bool) (m n : Result ParseError A)
    → (b ≡ true → EndsIn P m)
    → (b ≡ false → EndsIn P n)
    → EndsIn P (if b then m else n)
if-EndsIn P true m n h k = h refl
if-EndsIn P false m n h k = k refl

abbrev pub Any : {A : Type 0} → A → Type 0
Any a = Unit

-- the rest is not longer
abbrev pub Within : ℕ → AnnotationMapBuilder × Bytes → Type 0
Within n p = length p.1 ≤ n

abbrev Short : ℕ → Bytes → Type 0
Short n cs = length cs ≤ n

pub length-skip : (test : ℕ → Bool) (cs : Bytes) → length (skip_while test cs) ≤ length cs
unfolding skip_while
length-skip test [] = omega arith
length-skip test (c ∷ cs) = ground (arith, length-skip test cs)

pub length-skip_spaces : (cs : Bytes) → length (skip_spaces cs) ≤ length cs
unfolding skip_spaces
length-skip_spaces cs = length-skip is_space cs

pub length-skip_to_eoln : (cs : Bytes) → length (skip_to_eoln cs) ≤ length cs
unfolding skip_to_eoln
length-skip_to_eoln cs = length-skip no_eoln cs

length-rest : (test : ℕ → Bool) (cs : Bytes) → length (span test cs).1 ≤ length cs
unfolding span
length-rest test [] = omega arith
length-rest test (c ∷ cs) = elim (Bool-cases (test c)) [
  | inl e ↦ rw e (let h = length-rest test cs in omega arith)
  | inr e ↦ rw e (omega arith)
]

add_to-EndsIn :
    (found concat multiple : Bool) (key value : Bytes) (amap : AnnotationMap)
    → EndsIn Any (add_to found concat multiple key value amap)
unfolding add_to
add_to-EndsIn false concat multiple key value amap = tt
add_to-EndsIn true true multiple key value amap = tt
add_to-EndsIn true false true key value amap = tt
add_to-EndsIn true false false key value amap = λ h. ground arith

add_annotation-EndsIn :
    (b : AnnotationMapBuilder) (value : Bytes) (concat : Bool)
    → EndsIn Any (add_annotation b value concat)
unfolding add_annotation
add_annotation-EndsIn b value concat =
    if-EndsIn Any (is_empty b.current_annotation_key) _ _ (λ e h. ground arith)
      λ e.
        if-EndsIn Any (is_empty value) _ _ (λ f h. ground arith)
          λ f.
            bind-EndsIn Any Any
              (add_to (has_annotation b.annotations b.current_annotation_key) concat
                b.current_allow_multiple b.current_annotation_key value b.annotations)
              _
              (add_to-EndsIn (has_annotation b.annotations b.current_annotation_key) concat
                b.current_allow_multiple b.current_annotation_key value b.annotations)
              λ amap u. tt

related_key-EndsIn : (b : AnnotationMapBuilder) (keyid : Bytes) → EndsIn Any (related_key b keyid)
unfolding related_key
related_key-EndsIn b keyid =
    if-EndsIn Any (is_empty b.current_annotation_key) _ _ (λ e h. ground arith) λ e. tt

close_bracket-EndsIn : (n : ℕ) (cs : Bytes) → length cs ≤ n → EndsIn (Short n) (close_bracket cs)
unfolding close_bracket
close_bracket-EndsIn n [] h = λ e. ground arith
close_bracket-EndsIn n (c ∷ cs) h =
    if-EndsIn (Short n) (c == b']') _ _ (λ e. let a = length-skip_spaces cs in omega arith)
      λ e f. ground arith

skip_param_kind-EndsIn :
    (n : ℕ) (cs : Bytes) → length cs ≤ n → EndsIn (Short n) (skip_param_kind cs)
unfolding skip_param_kind
skip_param_kind-EndsIn n [] h = h
skip_param_kind-EndsIn n (c ∷ cs) h =
    let inner = skip_while (λ d. not (d == b']') && leb 32 d) cs in
    let a = length-skip (λ d. not (d == b']') && leb 32 d) cs in
    if-EndsIn (Short n) (c == b'[') _ _ (λ e. close_bracket-EndsIn n inner (omega arith)) λ e. h

name_key-Within :
    (n : ℕ) (b : AnnotationMapBuilder) (cs : Bytes) → length cs ≤ n → Within n (name_key b cs)
unfolding name_key parse_identifier
name_key-Within n b cs h = let a = length-rest is_alnum cs in omega arith

tag_key-EndsIn :
    (n : ℕ) (b : AnnotationMapBuilder) (key rest : Bytes)
    → length rest ≤ n
    → EndsIn (Within n) (tag_key b key rest)
unfolding tag_key
tag_key-EndsIn n b key rest h =
    let a = length-skip_spaces rest in
    if-EndsIn (Within n)
      (eq_bytes key (codes "brief")
        || eq_bytes key (codes "struct")
        || eq_bytes key (codes "class"))
      _ _ (λ e. h)
      λ e.
        if-EndsIn (Within n)
          (eq_bytes key (codes "example")
            || eq_bytes key (codes "remark")
            || eq_bytes key (codes "note"))
          _ _
          (λ f.
            bind-EndsIn Any (Within n) (related_key b (b'@' ∷ key)) _
              (related_key-EndsIn b (b'@' ∷ key)) λ b1 u. h)
          λ f.
            if-EndsIn (Within n) (eq_bytes key (codes "return")) _ _ (λ g. h)
              λ g.
                if-EndsIn (Within n) (eq_bytes key (codes "param")) _ _
                  (λ p.
                    bind-EndsIn (Short n) (Within n) (skip_param_kind (skip_spaces rest)) _
                      (skip_param_kind-EndsIn n (skip_spaces rest) (omega arith))
                      λ r l. name_key-Within n b r l)
                  λ p.
                    if-EndsIn (Within n) (eq_bytes key (codes "member")) _ _
                      (λ q. name_key-Within n b (skip_spaces rest) (omega arith))
                      λ q k. ground arith

value_line-EndsIn :
    (n : ℕ) (b : AnnotationMapBuilder) (src : Bytes)
    → length src ≤ n
    → EndsIn (Within n) (value_line (b, src))
unfolding value_line
value_line-EndsIn n b src h =
    let one = length-skip_spaces src in
    let two = length-skip_to_eoln (skip_spaces src) in
    bind-EndsIn Any (Within n) (add_annotation b (line (skip_spaces src)) false) _
      (add_annotation-EndsIn b (line (skip_spaces src)) false) λ b1 u. omega arith

-- what is left of the line behind an annotation
abbrev pub LineWithin : ℕ → AnnotationMapBuilder × Bytes → Type 0
LineWithin n p = length (skip_to_eoln p.1) ≤ n

skip_to_eoln_byte :
    (c : ℕ) (cs : Bytes) → (c == 10) ≡ false → length (skip_to_eoln (c ∷ cs)) ≤ length cs
unfolding skip_to_eoln skip_while no_eoln
skip_to_eoln_byte c cs h = rw h (length-skip no_eoln cs)

pub extract_at-EndsIn :
    (b : AnnotationMapBuilder) (c : ℕ) (cs : Bytes)
    → (c == 10) ≡ false
    → EndsIn (LineWithin (length cs)) (extract_at b (c ∷ cs))
unfolding extract_at
extract_at-EndsIn b c cs h =
    let byte = skip_to_eoln_byte c cs h in
    let twice = length-skip_to_eoln (skip_to_eoln (c ∷ cs)) in
    if-EndsIn (LineWithin (length cs)) (c == 9) _ _
      (λ e.
        bind-EndsIn Any (LineWithin (length cs)) (add_annotation b (line cs) true) _
          (add_annotation-EndsIn b (line cs) true) λ b1 u. omega arith)
      λ e.
        if-EndsIn (LineWithin (length cs)) (c == b'\\') _ _
          (λ f.
            bind-EndsIn (Within (length cs)) (LineWithin (length cs))
              (tag_key b (span is_alpha cs).0 (span is_alpha cs).1) _
              (tag_key-EndsIn (length cs) b (span is_alpha cs).0 (span is_alpha cs).1
                (length-rest is_alpha cs))
              λ p l.
                within_line (length cs) (value_line p) (value_line-EndsIn (length cs) p.0 p.1 l))
          λ f. byte
  where
    within_line :
        (n : ℕ) (r : Result ParseError (AnnotationMapBuilder × Bytes))
        → EndsIn (Within n) r
        → EndsIn (LineWithin n) r
    within_line n (ok p) w = let a = length-skip_to_eoln p.1 in omega arith
    within_line n (err e) w = w
