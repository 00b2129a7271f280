-- ===== src/Parser/Comments.antt =====
-- Comments, brackets and structures (src/parser/interfaceParser.cpp). The byte behind the source is a 0.
use strus_bindings.Base.{
  ℕ, zero, suc, ◌-◌, Bool, false, [], ◌∷◌, ◌==◌, if◌then◌else◌, Bytes, codes, length, take, drop,
}
use strus_bindings.Base.Result.{Result, ok, err}
use strus_bindings.Parser.Lexical.{
  ParseError, comment_not_closed, unexpected_annotation, illegal_call, unbalanced_brackets, overrun,
  stuck, skip_while, skip_spaces, skip_to_eoln, skip_to_str, is_eoln_comment, is_block_comment,
  is_block_end, contains,
}
use strus_bindings.Parser.Annotations.{
  ◌>>=◌, AnnotationMap, AnnotationMapBuilder, new_builder, extract_annotation,
}

-- `has_annotation` of a comment
unfoldable pub starts_annotation : Bytes → Bool
starts_annotation [] = false
starts_annotation (c ∷ cs) = if c == 32 then starts_annotation cs else c == b'\\'

-- the loop in a block comment
unfoldable pub block_line :
    (again : AnnotationMapBuilder → Bytes → Result ParseError (AnnotationMapBuilder × Bytes))
    → AnnotationMapBuilder
    → Bytes
    → Result ParseError (AnnotationMapBuilder × Bytes)
unfolding extract_annotation is_block_end skip_to_eoln
block_line again b src =
    let more = do (b1, rest) ← extract_annotation b src; again b1 (skip_to_eoln rest)
    in if is_block_end src then ok (b, drop 2 src) else more

unfoldable pub block_lines :
    (fuel : ℕ) → AnnotationMapBuilder → Bytes → Result ParseError (AnnotationMapBuilder × Bytes)
unfolding block_line skip_spaces
block_lines fuel b [] = ok (b, [])
block_lines zero b (c ∷ cs) = err stuck
block_lines (suc fuel) b (c ∷ cs) = block_line (block_lines fuel) b (skip_spaces (c ∷ cs))

unfoldable pub after_block :
    AnnotationMapBuilder × Bytes → Result ParseError (AnnotationMapBuilder × Bytes)
unfolding skip_spaces
after_block (b, []) = err comment_not_closed
after_block (b, c ∷ cs) = ok (b, skip_spaces (c ∷ cs))

-- the loop over the comments, where `again` is the next round
unfoldable pub annotated_comment :
    (again : AnnotationMapBuilder → Bytes → Result ParseError (AnnotationMap × Bytes))
    → AnnotationMapBuilder
    → Bytes
    → Result ParseError (AnnotationMap × Bytes)
unfolding extract_annotation block_lines after_block skip_to_eoln skip_spaces skip_while
    is_eoln_comment is_block_comment
annotated_comment again b src =
    let eoln = do
      (b1, rest) ← extract_annotation b (skip_while (λ c. c == b'/') src)
      again b1 (skip_spaces (skip_to_eoln rest))
    in let inner = skip_while (λ c. c == b'*') (drop 2 src) in
      let block = do
        (b1, rest) ← block_lines (length inner) b inner
        (b2, rest2) ← after_block (b1, rest)
        again b2 rest2
      in if is_eoln_comment src
        then eoln
        else if is_block_comment src
        then block
        else ok (b.annotations, src)

unfoldable pub annotated_comments :
    (fuel : ℕ) → AnnotationMapBuilder → Bytes → Result ParseError (AnnotationMap × Bytes)
unfolding annotated_comment
annotated_comments zero b src = err stuck
annotated_comments (suc fuel) b src = annotated_comment (annotated_comments fuel) b src

-- the fuel is one round for each byte, and one for the end
unfoldable pub parse_annotations : Bytes → Result ParseError (AnnotationMap × Bytes)
unfolding annotated_comments new_builder skip_spaces
parse_annotations src = annotated_comments (suc (length src)) new_builder (skip_spaces src)

-- `si += 2` after `skipToStr`. The source goes on with a pointer behind the end, which it neither
-- notices nor throws for; the model stops there with `overrun`.
unfoldable pub step_two : Bytes → Result ParseError Bytes
step_two [] = err overrun
step_two (c ∷ []) = err overrun
step_two (c ∷ d ∷ ds) = ok ds

unfoldable pub closed_by : (start rest : Bytes) → Result ParseError Bytes
unfolding contains step_two
closed_by start rest =
    if contains b'\\' (take (length start - length rest) start)
    then err unexpected_annotation
    else step_two rest

unfoldable pub close_block : (start : Bytes) → Result ParseError Bytes
unfolding skip_to_str closed_by
close_block start = closed_by start (skip_to_str start (codes "*/"))

-- a round of `skipSpacesAndComments` behind the spaces, where `again` is the next one
unfoldable pub skip_comment :
    (again : Bytes → Result ParseError Bytes) → Bytes → Result ParseError Bytes
unfolding close_block starts_annotation skip_to_eoln skip_while is_eoln_comment is_block_comment
skip_comment again src =
    let inner = skip_while (λ c. c == b'/') src in
    let eoln = again (skip_to_eoln inner) in
    let block = do rest ← close_block (drop 2 src); again rest
    in if is_eoln_comment src
      then (if starts_annotation inner then err unexpected_annotation else eoln)
      else if is_block_comment src
      then block
      else ok src

unfoldable pub skip_comments : (fuel : ℕ) → Bytes → Result ParseError Bytes
unfolding skip_comment skip_spaces
skip_comments fuel [] = ok []
skip_comments zero (c ∷ cs) = err stuck
skip_comments (suc fuel) (c ∷ cs) = skip_comment (skip_comments fuel) (skip_spaces (c ∷ cs))

unfoldable pub skip_spaces_and_comments : Bytes → Result ParseError Bytes
unfolding skip_comments
skip_spaces_and_comments src = skip_comments (length src) src

unfoldable pub skip_eoln_comments : (fuel : ℕ) → Bytes → Result ParseError Bytes
unfolding skip_to_eoln skip_spaces is_eoln_comment
skip_eoln_comments zero src = if is_eoln_comment src then err stuck else ok src
skip_eoln_comments (suc fuel) src =
    let rest = skip_eoln_comments fuel (skip_spaces (skip_to_eoln (drop 2 src))) in
    if is_eoln_comment src then rest else ok src

unfoldable pub skip_comment_block : Bytes → Result ParseError Bytes
unfolding skip_eoln_comments skip_spaces skip_to_str step_two is_eoln_comment is_block_comment
skip_comment_block src =
    let src1 = skip_spaces src in
    let block = do rest ← step_two (skip_to_str (drop 2 src1) (codes "*/")); ok (skip_spaces rest)
    in if is_eoln_comment src1
      then skip_eoln_comments (length src1) src1
      else if is_block_comment src1
      then block
      else ok src1

-- the loop of `skipBrackets`; the brackets that are open are one more than `extra`
unfoldable pub close_brackets : (sb eb extra : ℕ) → Bytes → Result ParseError Bytes
close_brackets sb eb extra [] = err unbalanced_brackets
close_brackets sb eb zero (c ∷ cs) =
    let deeper = close_brackets sb eb 1 cs in
    let same = close_brackets sb eb 0 cs in
    if c == sb then deeper else if c == eb then ok cs else same
close_brackets sb eb (suc extra) (c ∷ cs) =
    let deeper = close_brackets sb eb (suc (suc extra)) cs in
    let higher = close_brackets sb eb extra cs in
    let same = close_brackets sb eb (suc extra) cs in
    if c == sb then deeper else if c == eb then higher else same

unfoldable pub skip_brackets : (sb eb : ℕ) → Bytes → Result ParseError Bytes
unfolding close_brackets skip_spaces_and_comments
skip_brackets sb eb [] = err illegal_call
skip_brackets sb eb (c ∷ cs) =
    let closed = do rest ← skip_spaces_and_comments cs; close_brackets sb eb 0 rest
    in if c == sb then closed else err illegal_call

-- `skipBrackets` for the bracket at the start
unfoldable pub skip_any_brackets : Bytes → Result ParseError Bytes
unfolding skip_brackets
skip_any_brackets [] = ok []
skip_any_brackets (c ∷ cs) =
    if c == b'<'
    then skip_brackets b'<' b'>' (c ∷ cs)
    else if c == b'['
    then skip_brackets b'[' b']' (c ∷ cs)
    else if c == b'('
    then skip_brackets b'(' b')' (c ∷ cs)
    else if c == b'{'
    then skip_brackets b'{' b'}' (c ∷ cs)
    else ok (c ∷ cs)
