-- ===== src/Parser/Tests.antt =====
-- The scanner of interface definitions (src/parser/interfaceParser.cpp) on concrete inputs.
use strus_bindings.Base.{
  some, inl, ℕ, ◌≡◌, ◌≢◌, refl, true, false, List, [], ◌∷◌, ◌++◌, Bytes, codes, eq_bytes, arith,
  is_empty,
}
use strus_bindings.Base.Result.{ok, err}
use strus_bindings.Parser.Lexical.{overrun, comment_not_closed}
use strus_bindings.Parser.Annotations.{AnnotationMapBuilder, add_annotation}
use strus_bindings.Parser.Comments.{
  parse_annotations, close_block, close_brackets, skip_spaces_and_comments,
}
use strus_bindings.Parser.Output.{output_variable, print, output_def}
use strus_bindings.Parser.Pattern.{
  TokenDef, token_operator, token_variable, token_suffix, parse_pattern, compile_pattern,
}
use strus_bindings.Parser.PatternEnds.{Ends, compile_pattern-Ends}
use strus_bindings.Parser.AnnotationEnds.{EndsIn}
use strus_bindings.Parser.CommentEnds.{parse_annotations-EndsIn}
use strus_bindings.Parser.PatternBinds.{variables, parse_pattern-print}
use strus_bindings.Parser.Overrun.{skip_spaces_and_comments-block}
use strus_bindings.Parser.Skipping.{EndsClean, skip_spaces_and_comments-EndsClean}

-- the stars of an empty comment are all taken for its start
unclosed : parse_annotations (codes "/**/ int x;") ≡ err comment_not_closed
unfolding parse_annotations eq_bytes
unclosed = refl

skipped : skip_spaces_and_comments (codes " // a\n/* b */ c") ≡ ok (codes "c")
unfolding skip_spaces_and_comments eq_bytes
skipped = refl

skip_spaces_and_comments-EndsClean_example :
    EndsClean (skip_spaces_and_comments (codes " // a\n/* b */ c"))
skip_spaces_and_comments-EndsClean_example =
    skip_spaces_and_comments-EndsClean (codes " // a\n/* b */ c")

skip_spaces_and_comments-block_example :
    (skip_spaces_and_comments (codes "/* a*/") ≡ err overrun)
    × ((c : ℕ) (cs : Bytes) → close_block (codes " a" ++ (b'*' ∷ b'/' ∷ c ∷ cs)) ≡ ok (c ∷ cs))
skip_spaces_and_comments-block_example =
    skip_spaces_and_comments-block (codes " a") (refl, refl, (refl, refl, tt))

brackets : ◌≢◌ {A = ℕ} b'(' b')'
brackets h = ground arith

closed : close_brackets b'(' b')' 0 (codes "a(b)c)d") ≡ ok (codes "d")
unfolding close_brackets
closed = refl

abbrev builder : AnnotationMapBuilder
builder = record {
  current_annotation_key = codes "@note";
  current_allow_multiple = true;
  annotations = (codes "@note", codes "one") ∷ [];
}

abbrev more : AnnotationMapBuilder
more = record {
  current_annotation_key = codes "@note";
  current_allow_multiple = true;
  annotations = (codes "@note", codes "one") ∷ (codes "@note", codes "two") ∷ [];
}

added : add_annotation builder (codes "two") false ≡ ok more
unfolding add_annotation eq_bytes is_empty
added = refl

abbrev tokens : List TokenDef
tokens =
    token_variable (codes "T") ∷ token_suffix (codes "Interface") ∷ token_operator (codes "*") ∷ []

matched :
    parse_pattern tokens (codes "VectorInterface* x")
    ≡ ok (some ((codes "T", codes "Vector") ∷ [], codes " x"))
unfolding parse_pattern eq_bytes
matched = refl

parse_pattern-print_example :
    (text : Bytes) × (print
        ((codes "T", codes "Vector") ∷ [])
        []
        []
        (output_variable (codes "T") ∷ [])
      ≡ ok text)
unfolding variables
parse_pattern-print_example =
    parse_pattern-print tokens (codes "VectorInterface* x")
      ((codes "T", codes "Vector") ∷ [], codes " x") [] [] (output_variable (codes "T") ∷ [])
      matched (inl refl, tt)

compile_pattern-Ends_example :
    Ends (compile_pattern (codes "$T~Interface *")) × Ends (output_def (codes "$T~Interface *"))
compile_pattern-Ends_example = compile_pattern-Ends (codes "$T~Interface *")

parse_annotations-EndsIn_example :
    EndsIn (λ p. Unit {0}) (parse_annotations (codes "/// \\brief Name\nint"))
parse_annotations-EndsIn_example = parse_annotations-EndsIn (codes "/// \\brief Name\nint")
