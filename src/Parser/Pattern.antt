-- ===== src/Parser/Pattern.antt =====
-- Patterns of variable types: `VariableType::Impl` of src/parser/interfaceParser.cpp.
use strus_bindings.Base.{
  ℕ, zero, suc, ◌-◌, Option, none, some, List, [], ◌∷◌, ◌==◌, if◌then◌else◌, Bytes, eq_bytes,
  length, take,
}
use strus_bindings.Base.Result.{Result, ok, err}
use strus_bindings.Parser.Lexical.{
  ParseError, identifier_expected, unknown_token, misplaced_suffix, stuck, ends_with, is_alnum,
  is_operator, parse_identifier, skip_spaces, starts_alpha, starts_alnum,
}
use strus_bindings.Parser.Annotations.{◌>>=◌}
use strus_bindings.Parser.Output.{DefMap, assign, Chunk, output_def}

pub data TokenDef : Type 0 where
  token_operator token_identifier token_variable token_suffix : (value : Bytes) → TokenDef

-- the part after a variable: a '~' is followed by a suffix
unfoldable pub scan_suffix :
    (again : Bytes → Result ParseError (List TokenDef)) → Bytes → Result ParseError (List TokenDef)
unfolding parse_identifier starts_alpha skip_spaces
scan_suffix again [] = again []
scan_suffix again (c ∷ cs) =
    let (suffix, rest) = parse_identifier cs in
    let with_suffix = do tokens ← again (skip_spaces rest); ok (token_suffix suffix ∷ tokens)
    in if c == b'~'
      then (if starts_alpha cs then with_suffix else err identifier_expected)
      else again (skip_spaces (c ∷ cs))

-- a round of the loop of the constructor, where `again` is the next one
unfoldable pub scan_token :
    (again : Bytes → Result ParseError (List TokenDef))
    → (c : ℕ) → Bytes
    → Result ParseError (List TokenDef)
unfolding parse_identifier starts_alpha skip_spaces is_alnum is_operator scan_suffix
scan_token again c cs =
    let (word, rest) = parse_identifier (c ∷ cs) in
    let identifier = do tokens ← again (skip_spaces rest); ok (token_identifier word ∷ tokens)
    in let operator = do tokens ← again (skip_spaces cs); ok (token_operator (c ∷ []) ∷ tokens)
      in let (name, behind) = parse_identifier cs in
        let variable = do tokens ← scan_suffix again behind; ok (token_variable name ∷ tokens)
        in if is_alnum c
          then identifier
          else if is_operator c
          then operator
          else if c == b'$'
          then (if starts_alpha cs then variable else err identifier_expected)
          else err unknown_token

unfoldable pub scan_tokens : (fuel : ℕ) → Bytes → Result ParseError (List TokenDef)
unfolding scan_token
scan_tokens fuel [] = ok []
scan_tokens zero (c ∷ cs) = err stuck
scan_tokens (suc fuel) (c ∷ cs) = scan_token (scan_tokens fuel) c cs

-- the constructor of VariableType::Impl
unfoldable pub compile_pattern : Bytes → Result ParseError (List TokenDef)
unfolding scan_tokens skip_spaces
compile_pattern pattern = scan_tokens (length pattern) (skip_spaces pattern)

unfoldable pub define_output :
    (eventname output : Bytes)
    → List (Bytes × List Chunk)
    → Result ParseError (List (Bytes × List Chunk))
unfolding output_def
define_output eventname output outputs = do
  chunks ← output_def output
  ok (set_output eventname chunks outputs)
  where
    set_output : Bytes → List Chunk → List (Bytes × List Chunk) → List (Bytes × List Chunk)
    set_output e chunks [] = (e, chunks) ∷ []
    set_output e chunks ((f, old) ∷ rest) =
        if eq_bytes f e then (f, chunks) ∷ rest else (f, old) ∷ set_output e chunks rest

-- what follows a text at the start of the source
unfoldable pub drop_text : (text src : Bytes) → Option Bytes
drop_text [] src = some src
drop_text (t ∷ ts) [] = none
drop_text (t ∷ ts) (c ∷ cs) = if c == t then drop_text ts cs else none

unfoldable pub no_alnum : Option Bytes → Option Bytes
unfolding starts_alnum
no_alnum none = none
no_alnum (some rest) = if starts_alnum rest then none else some rest

-- `none` at the end of the source
unfoldable pub after_operator : (value src : Bytes) → Option Bytes
unfolding drop_text
after_operator value [] = none
after_operator value (c ∷ cs) = drop_text value (c ∷ cs)

unfoldable pub after_identifier : (value src : Bytes) → Option Bytes
unfolding after_operator no_alnum
after_identifier value src = no_alnum (after_operator value src)

unfoldable pub with_suffix : (suffix : Bytes) → Bytes × Bytes → Option (Bytes × Bytes)
unfolding ends_with
with_suffix suffix (ident, rest) =
    if ends_with ident suffix then some (take (length ident - length suffix) ident, rest) else none

unfoldable pub identifier_at : Bytes → Option (Bytes × Bytes)
unfolding parse_identifier starts_alpha
identifier_at src = if starts_alpha src then some (parse_identifier src) else none

unfoldable pub suffixed_at : (suffix src : Bytes) → Option (Bytes × Bytes)
unfolding parse_identifier starts_alpha with_suffix
suffixed_at suffix src =
    if starts_alpha src then with_suffix suffix (parse_identifier src) else none

abbrev pub Match : Type 0
Match = Result ParseError (Option (DefMap × Bytes))

unfoldable pub go_on : (again : Bytes → Match) → Option Bytes → Match
go_on again none = ok none
go_on again (some rest) = again rest

unfoldable pub bind_variable :
    (again : DefMap → Bytes → Match)
    → (variableid : Bytes) → DefMap
    → Option (Bytes × Bytes)
    → Match
unfolding assign
bind_variable again variableid defmap none = ok none
bind_variable again variableid defmap (some (ident, rest)) =
    again (assign variableid ident defmap) rest

unfoldable pub lone_suffix : Bytes → Match
lone_suffix [] = ok none
lone_suffix (c ∷ cs) = err misplaced_suffix

-- the loop of `parse` over the tokens; `none` is the result false
unfoldable pub match_tokens : DefMap → List TokenDef → Bytes → Match
unfolding skip_spaces go_on after_operator after_identifier bind_variable identifier_at suffixed_at
    lone_suffix
match_tokens defmap [] src = ok (some (defmap, src))
match_tokens defmap (token_operator v ∷ ts) src =
    go_on (match_tokens defmap ts) (after_operator v (skip_spaces src))
match_tokens defmap (token_identifier v ∷ ts) src =
    go_on (match_tokens defmap ts) (after_identifier v (skip_spaces src))
match_tokens defmap (token_variable v ∷ token_suffix w ∷ ts) src =
    bind_variable (λ d. match_tokens d ts) v defmap (suffixed_at w (skip_spaces src))
match_tokens defmap (token_variable v ∷ ts) src =
    bind_variable (λ d. match_tokens d ts) v defmap (identifier_at (skip_spaces src))
match_tokens defmap (token_suffix v ∷ ts) src = lone_suffix (skip_spaces src)

unfoldable pub parse_pattern : List TokenDef → Bytes → Match
unfolding match_tokens
parse_pattern tokens src = match_tokens [] tokens src
