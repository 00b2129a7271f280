-- ===== src/Parser/Output.antt =====
-- Outputs of variable types: `OutputDef` of src/parser/interfaceParser.cpp. A `std::map` of strings is the
-- list of its entries with different keys.
use strus_bindings.Base.{
  ℕ, zero, suc, not, ◌&&◌, Option, none, some, List, [], ◌∷◌, ◌++◌, ◌==◌, if◌then◌else◌, Bytes,
  codes, eq_bytes, length, is_empty,
}
use strus_bindings.Base.Result.{Result, ok, err}
use strus_bindings.Parser.Lexical.{
  ParseError, identifier_expected, undefined_variable, stuck, parse_identifier, starts_alpha,
}
use strus_bindings.Parser.Annotations.{◌>>=◌}

pub data Chunk : Type 0 where
  output_string output_variable : (value : Bytes) → Chunk

abbrev pub DefMap : Type 0
DefMap = List (Bytes × Bytes)

unfoldable pub find : (key : Bytes) → DefMap → Option Bytes
find key [] = none
find key ((k, v) ∷ m) = if eq_bytes k key then some v else find key m

-- `defmap[key] = value`
unfoldable pub assign : (key value : Bytes) → DefMap → DefMap
assign key value [] = (key, value) ∷ []
assign key value ((k, v) ∷ m) =
    if eq_bytes k key then (k, value) ∷ m else (k, v) ∷ assign key value m

unfoldable pub flush : (value : Bytes) → List Chunk → List Chunk
flush [] chunks = chunks
flush (c ∷ cs) chunks = output_string (c ∷ cs) ∷ chunks

unfoldable pub skip_char : ℕ → Bytes → Bytes
skip_char d [] = []
skip_char d (c ∷ cs) = if c == d then cs else c ∷ cs

-- the part after a '$', where `again` is the next round with an empty value
unfoldable pub scan_variable :
    (again : Bytes → Result ParseError (List Chunk))
    → (value src : Bytes) → Result ParseError (List Chunk)
unfolding parse_identifier starts_alpha flush skip_char
scan_variable again value src =
    let (ident, rest) = parse_identifier src in
    let variable = do
      chunks ← again (skip_char b'~' rest)
      ok (flush value (output_variable ident ∷ chunks))
    in if starts_alpha src then variable else err identifier_expected

unfoldable pub scan_output : (fuel : ℕ) → (value src : Bytes) → Result ParseError (List Chunk)
unfolding scan_variable flush
scan_output fuel value [] = ok (flush value [])
scan_output zero value (c ∷ cs) = err stuck
scan_output (suc fuel) value (c ∷ cs) =
    let variable = scan_variable (scan_output fuel []) value cs in
    let more = scan_output fuel (value ++ (c ∷ [])) cs in if c == b'$' then variable else more

-- the constructor of OutputDef
unfoldable pub output_def : Bytes → Result ParseError (List Chunk)
unfolding scan_output
output_def src = scan_output (length src) [] src

unfoldable pub or_undefined : Option Bytes → Result ParseError Bytes
or_undefined none = err undefined_variable
or_undefined (some v) = ok v

-- what a chunk appends
unfoldable pub print_chunk : DefMap → (name value : Bytes) → Chunk → Result ParseError Bytes
unfolding find or_undefined
print_chunk defmap name value (output_string s) = ok s
print_chunk defmap name value (output_variable v) =
    if eq_bytes v (codes "name") && not (is_empty name)
    then ok name
    else if eq_bytes v (codes "value") && not (is_empty value)
    then ok value
    else or_undefined (find v defmap)

unfoldable pub print : DefMap → (name value : Bytes) → List Chunk → Result ParseError Bytes
unfolding print_chunk
print defmap name value [] = ok []
print defmap name value (chunk ∷ chunks) = do
  text ← print_chunk defmap name value chunk
  rest ← print defmap name value chunks
  ok (text ++ rest)

unfoldable pub chunk_tostring : Chunk → Bytes
chunk_tostring (output_string v) = codes "String '" ++ v ++ codes "'"
chunk_tostring (output_variable v) = codes "Variable '" ++ v ++ codes "'"

unfoldable pub tostring : List Chunk → Bytes
unfolding chunk_tostring
tostring [] = []
tostring (chunk ∷ []) = chunk_tostring chunk
tostring (chunk ∷ next ∷ chunks) = chunk_tostring chunk ++ codes ", " ++ tostring (next ∷ chunks)
