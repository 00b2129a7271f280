-- ===== src/Parser/Structure.antt =====
-- Skipping of templates and structures, and the outputs of a type (src/parser/interfaceParser.cpp). The byte
-- behind the source is a 0.
use strus_bindings.Base.{
  ℕ, zero, suc, Bool, true, false, ◌||◌, List, [], ◌∷◌, ◌==◌, if◌then◌else◌, Bytes, eq_bytes,
  length,
}
use strus_bindings.Base.Result.{Result, ok, err}
use strus_bindings.Parser.Lexical.{
  ParseError, unexpected_end, stuck, is_alnum, starts_alpha, parse_identifier, skip_while,
}
use strus_bindings.Parser.Annotations.{◌>>=◌}
use strus_bindings.Parser.Comments.{skip_spaces_and_comments, skip_brackets}
use strus_bindings.Parser.Output.{DefMap, Chunk, print}

-- `trySkipTemplateReference` behind the bracket; the flag is its result
unfoldable pub go_on_template :
    (again : Bytes → Result ParseError (Bool × Bytes))
    → Bool × Bytes
    → Result ParseError (Bool × Bytes)
go_on_template again (false, rest) = ok (false, rest)
go_on_template again (true, rest) = again rest

unfoldable pub skip_template : (fuel : ℕ) → Bytes → Result ParseError (Bool × Bytes)
unfolding go_on_template is_alnum
skip_template fuel [] = ok (false, [])
skip_template zero (c ∷ cs) = err stuck
skip_template (suc fuel) (c ∷ cs) =
    let same = skip_template fuel cs in
    let inner = do skipped ← skip_template fuel cs; go_on_template (skip_template fuel) skipped
    in if c == b'<'
      then inner
      else if is_alnum c || c == b':' || c == b' '
      then same
      else if c == b'>'
      then ok (true, cs)
      else ok (false, c ∷ cs)

unfoldable pub after_template : Bytes → Bool × Bytes → Bytes
after_template src (true, rest) = rest
after_template src (false, rest) = src

-- a template reference is skipped if it is one
unfoldable pub try_skip_template : Bytes → Result ParseError Bytes
unfolding skip_template after_template
try_skip_template [] = ok []
try_skip_template (c ∷ cs) =
    let skipped = do result ← skip_template (length cs) cs; ok (after_template (c ∷ cs) result)
    in if c == b'<' then skipped else ok (c ∷ cs)

-- a round of the loop over the identifiers of a structure
unfoldable pub skip_part : Bytes → Result ParseError Bytes
unfolding parse_identifier try_skip_template skip_spaces_and_comments skip_while
skip_part src = do
  rest ← try_skip_template (parse_identifier src).1
  rest2 ← skip_spaces_and_comments rest
  skip_spaces_and_comments (skip_while (λ c. c == b':') rest2)

unfoldable pub skip_parts : (fuel : ℕ) → Bytes → Result ParseError Bytes
unfolding starts_alpha skip_part
skip_parts zero src = if starts_alpha src then err stuck else ok src
skip_parts (suc fuel) src =
    let more = do rest ← skip_part src; skip_parts fuel rest
    in if starts_alpha src then more else ok src

-- brackets, if they follow
unfoldable pub skip_optional : (sb eb : ℕ) → Bytes → Result ParseError Bytes
unfolding skip_brackets
skip_optional sb eb [] = ok []
skip_optional sb eb (c ∷ cs) = if c == sb then skip_brackets sb eb (c ∷ cs) else ok (c ∷ cs)

unfoldable pub skip_semicolon : Bytes → Bytes
skip_semicolon [] = []
skip_semicolon (c ∷ cs) = if c == b';' then cs else c ∷ cs

unfoldable pub structure_end : Bytes → Result ParseError Bytes
unfolding skip_optional skip_semicolon
structure_end [] = err unexpected_end
structure_end (c ∷ cs) = do
  rest ← skip_optional b'(' b')' (c ∷ cs)
  rest2 ← skip_optional b'{' b'}' rest
  ok (skip_semicolon rest2)

unfoldable pub skip_structure : Bytes → Result ParseError Bytes
unfolding skip_spaces_and_comments skip_parts structure_end
skip_structure src = do
  rest ← skip_spaces_and_comments src
  rest2 ← skip_parts (length rest) rest
  structure_end rest2

abbrev pub Outputs : Type 0
Outputs = List (Bytes × List Chunk)

unfoldable pub has_event : (eventname : Bytes) → Outputs → Bool
has_event eventname [] = false
has_event eventname ((e, chunks) ∷ outputs) = eq_bytes e eventname || has_event eventname outputs

-- `expand`: nothing for an event without an output
unfoldable pub expand :
    (eventname : Bytes) → Outputs → DefMap → (name value : Bytes) → Result ParseError Bytes
unfolding print
expand eventname [] defmap name value = ok []
expand eventname ((e, chunks) ∷ outputs) defmap name value =
    let others = expand eventname outputs defmap name value in
    if eq_bytes e eventname then print defmap name value chunks else others
