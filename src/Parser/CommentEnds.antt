-- ===== src/Parser/CommentEnds.antt =====
-- The loops over the comments with annotations come to an end (src/parser/interfaceParser.cpp).
use strus_bindings.Base.{
  ℕ, zero, suc, ◌≤◌, ◌<◌, ◌≡◌, true, false, [], ◌∷◌, ◌==◌, Bytes, length, drop, length-drop, arith,
  inl, inr, Bool-cases,
}
use strus_bindings.Base.Result.{Result, ok, err}
use strus_bindings.Parser.Lexical.{
  ParseError, is_space, skip_while, skip_spaces, skip_to_eoln, is_eoln_comment, is_block_comment,
  is_block_end,
}
use strus_bindings.Parser.Annotations.{
  AnnotationMap, AnnotationMapBuilder, new_builder, extract_at, extract_annotation,
}
use strus_bindings.Parser.AnnotationEnds.{
  EndsIn, bind-EndsIn, if-EndsIn, Any, Within, LineWithin, length-skip, length-skip_spaces,
  length-skip_to_eoln, extract_at-EndsIn,
}
use strus_bindings.Parser.Comments.{
  block_line, block_lines, after_block, annotated_comment, annotated_comments, parse_annotations,
}

longer_line :
    (m n : ℕ) (r : Result ParseError (AnnotationMapBuilder × Bytes))
    → m ≤ n
    → EndsIn (LineWithin m) r
    → EndsIn (LineWithin n) r
longer_line m n (ok p) h w = omega arith
longer_line m n (err e) h w = w

-- at any byte
extract_at_any :
    (b : AnnotationMapBuilder) (cs : Bytes) → EndsIn (LineWithin (length cs)) (extract_at b cs)
unfolding extract_at
extract_at_any b [] = length-skip_to_eoln []
extract_at_any b (c ∷ cs) = elim (Bool-cases (c == 10)) [
  | inl e ↦
      if-EndsIn (LineWithin (suc (length cs))) (c == 9) _ _ (λ f. absurd (ground arith))
        λ f.
          if-EndsIn (LineWithin (suc (length cs))) (c == b'\\') _ _ (λ g. absurd (ground arith))
            λ g. length-skip_to_eoln (c ∷ cs)
  | inr e ↦
      longer_line (length cs) (suc (length cs)) (extract_at b (c ∷ cs)) (omega arith)
        (extract_at-EndsIn b c cs e)
]

extract_annotation-EndsIn :
    (b : AnnotationMapBuilder) (cs : Bytes)
    → EndsIn (LineWithin (length cs)) (extract_annotation b cs)
unfolding extract_annotation
extract_annotation-EndsIn b cs =
    let inner = skip_while (λ c. c == 32) cs in
    longer_line (length inner) (length cs) (extract_at b inner) (length-skip (λ c. c == 32) cs)
      (extract_at_any b inner)

abbrev NoSpace : Bytes → Type 0
NoSpace [] = Unit
NoSpace (c ∷ cs) = is_space c ≡ false

skip_spaces-NoSpace : (cs : Bytes) → NoSpace (skip_spaces cs)
unfolding skip_spaces skip_while
skip_spaces-NoSpace [] = tt
skip_spaces-NoSpace (c ∷ cs) = elim (Bool-cases (is_space c)) [
  | inl e ↦ rw e (skip_spaces-NoSpace cs)
  | inr e ↦ rw e e
]

-- a line that starts with no space is passed
extract_annotation-line :
    (b : AnnotationMapBuilder) (c : ℕ) (cs : Bytes)
    → is_space c ≡ false
    → EndsIn (LineWithin (length cs)) (extract_annotation b (c ∷ cs))
unfolding extract_annotation skip_while is_space
extract_annotation-line b c cs h =
    let blank : (c == 32) ≡ false = ground arith in
    let eoln : (c == 10) ≡ false = ground arith in rw blank (extract_at-EndsIn b c cs eoln)

block_line-EndsIn :
    (again : AnnotationMapBuilder → Bytes → Result ParseError (AnnotationMapBuilder × Bytes))
    (fuel n : ℕ) (b : AnnotationMapBuilder) (src : Bytes)
    → ((b1 : AnnotationMapBuilder) (rest : Bytes)
        → length rest ≤ fuel
        → length rest ≤ n
        → EndsIn (Within n) (again b1 rest))
    → NoSpace src
    → length src ≤ suc fuel
    → length src ≤ n
    → EndsIn (Within n) (block_line again b src)
unfolding block_line
block_line-EndsIn again fuel n b [] k s h l =
    if-EndsIn (Within n) (is_block_end []) (ok (b, drop 2 [])) _ (λ e. omega arith)
      λ e.
        bind-EndsIn (LineWithin 0) (Within n) (extract_annotation b []) _
          (extract_annotation-EndsIn b [])
          λ p w. k p.0 (skip_to_eoln p.1) (omega arith) (omega arith)
block_line-EndsIn again fuel n b (c ∷ cs) k s h l =
    if-EndsIn (Within n) (is_block_end (c ∷ cs)) _ _
      (λ e. let d = length-drop 2 (c ∷ cs) in omega arith)
      λ e.
        bind-EndsIn (LineWithin (length cs)) (Within n) (extract_annotation b (c ∷ cs)) _
          (extract_annotation-line b c cs s)
          λ p w. k p.0 (skip_to_eoln p.1) (omega arith) (omega arith)

block_lines-EndsIn :
    (fuel n : ℕ) (b : AnnotationMapBuilder) (src : Bytes)
    → length src ≤ fuel
    → length src ≤ n
    → EndsIn (Within n) (block_lines fuel b src)
unfolding block_lines
block_lines-EndsIn zero n b [] h l = l
block_lines-EndsIn (suc fuel) n b [] h l = l
block_lines-EndsIn zero n b (c ∷ cs) h l = ground arith
block_lines-EndsIn (suc fuel) n b (c ∷ cs) h l =
    let a : length (skip_spaces (c ∷ cs)) ≤ length (c ∷ cs) = length-skip_spaces (c ∷ cs) in
    block_line-EndsIn (block_lines fuel) fuel n b (skip_spaces (c ∷ cs)) (block_lines-EndsIn fuel n)
      (skip_spaces-NoSpace (c ∷ cs)) (omega arith) (omega arith)

after_block-EndsIn :
    (n : ℕ) (p : AnnotationMapBuilder × Bytes) → Within n p → EndsIn (Within n) (after_block p)
unfolding after_block
after_block-EndsIn n (b, []) h = λ e. ground arith
after_block-EndsIn n (b, c ∷ cs) h = let a = length-skip_spaces (c ∷ cs) in omega arith

slashes_shorter :
    (src : Bytes)
    → is_eoln_comment src ≡ true
    → suc (length (skip_while (λ c. c == b'/') src)) ≤ length src
unfolding is_eoln_comment skip_while
slashes_shorter [] h = ground arith
slashes_shorter (c ∷ []) h = ground arith
slashes_shorter (c ∷ d ∷ ds) h =
    let first : (c == b'/') ≡ true = ground arith in
    let a = length-skip (λ b. b == b'/') (d ∷ ds) in rw first (omega arith)

block_shorter : (src : Bytes) → is_block_comment src ≡ true → suc (length (drop 2 src)) ≤ length src
unfolding is_block_comment
block_shorter [] h = ground arith
block_shorter (c ∷ []) h = ground arith
block_shorter (c ∷ d ∷ ds) h = omega arith

annotated_comment-EndsIn :
    (again : AnnotationMapBuilder → Bytes → Result ParseError (AnnotationMap × Bytes)) (fuel : ℕ)
    (b : AnnotationMapBuilder) (src : Bytes)
    → ((b1 : AnnotationMapBuilder) (rest : Bytes) → length rest < fuel → EndsIn Any (again b1 rest))
    → length src ≤ fuel
    → EndsIn Any (annotated_comment again b src)
unfolding annotated_comment
annotated_comment-EndsIn again fuel b src k h =
    let inner = skip_while (λ c. c == b'/') src in
    let text = skip_while (λ c. c == b'*') (drop 2 src) in
    if-EndsIn Any (is_eoln_comment src) _ _
      (λ e.
        let a = slashes_shorter src e in
        bind-EndsIn (LineWithin (length inner)) Any (extract_annotation b inner) _
          (extract_annotation-EndsIn b inner)
          λ p w.
            let s = length-skip_spaces (skip_to_eoln p.1) in
            k p.0 (skip_spaces (skip_to_eoln p.1)) (omega arith))
      λ e.
        if-EndsIn Any (is_block_comment src) _ _
          (λ f.
            let a = block_shorter src f in
            let s = length-skip (λ c. c == b'*') (drop 2 src) in
            bind-EndsIn (Within (length text)) Any (block_lines (length text) b text) _
              (block_lines-EndsIn (length text) (length text) b text (omega arith) (omega arith))
              λ p w.
                bind-EndsIn (Within (length text)) Any (after_block p) _
                  (after_block-EndsIn (length text) p w) λ q v. k q.0 q.1 (omega arith))
          λ f. tt

annotated_comments-EndsIn :
    (fuel : ℕ) (b : AnnotationMapBuilder) (src : Bytes)
    → length src < fuel
    → EndsIn Any (annotated_comments fuel b src)
unfolding annotated_comments
annotated_comments-EndsIn zero b src h = ground arith
annotated_comments-EndsIn (suc fuel) b src h =
    annotated_comment-EndsIn (annotated_comments fuel) fuel b src (annotated_comments-EndsIn fuel)
      (omega arith)

-- The scanning of annotations ends on every source: it returns the annotations or throws, with as many
-- rounds of its loops as the source has bytes, and one for the end.
pub parse_annotations-EndsIn : (src : Bytes) → EndsIn (λ p. Unit {0}) (parse_annotations src)
unfolding parse_annotations
parse_annotations-EndsIn src =
    let a = length-skip_spaces src in
    annotated_comments-EndsIn (suc (length src)) new_builder (skip_spaces src) (omega arith)
