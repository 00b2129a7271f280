-- ===== src/Request/Format.antt =====
-- The format strings of the environment of a schema: `appendBuf` and `parseFormatElement` of
-- src/webrequest/webRequestContext_env.cpp.
use strus_bindings.Base.{
  ℕ, zero, suc, ◌+◌, ◌==◌, Bool, true, false, ◌&&◌, Option, none, some, List, [], ◌∷◌, ◌++◌,
  if◌then◌else◌, leb, length, Bytes, eq_bytes,
}
use strus_bindings.Base.Result.{Result, ok, err}
pub mod Expands

-- `out_of_fuel` is the model's own: the loop has not ended within its fuel.
pub data FormatError : Type 0 where
  out_of_mem syntax not_implemented out_of_fuel : FormatError

pub record EnvVariable : Type 0 where
  pub name : Bytes
  pub value : Bytes

-- `if (!...) return false`
abbrev pub bind :
    Result FormatError Bytes → (Bytes → Result FormatError Bytes) → Result FormatError Bytes
bind (err e) f = err e
bind (ok b) f = f b

-- the text in the buffer, with a text appended
unfoldable pub append_buf : (bufsize : ℕ) → (buf ptr : Bytes) → Result FormatError Bytes
append_buf bufsize buf ptr =
    if leb bufsize (length buf + length ptr + 1) then err out_of_mem else ok (buf ++ ptr)

-- the text before a byte, and what follows that byte, if there is one
unfoldable pub split_at : (c : ℕ) → Bytes → Bytes × Option Bytes
split_at c [] = ([], none)
split_at c (d ∷ ds) =
    let rest = split_at c ds in if d == c then ([], some ds) else (d ∷ rest.0, rest.1)

-- the first bytes are compared before the texts are; after the name `}` follows in the format
unfoldable pub is_variable : (key : Bytes) → (name : Bytes) → Bool
is_variable key [] = false
is_variable key (c ∷ cs) = eq_bytes (c ∷ cs) key

unfoldable pub find_variable : (key : Bytes) → List EnvVariable → Option Bytes
unfolding is_variable
find_variable key [] = none
find_variable key (v ∷ var) = if is_variable key v.name then some v.value else find_variable key var

unfoldable pub append_variable :
    (bufsize : ℕ) → (buf : Bytes) → Option Bytes → Result FormatError Bytes
unfolding append_buf
append_variable bufsize buf none = err not_implemented
append_variable bufsize buf (some value) = append_buf bufsize buf value

-- a round of the loop at the text behind `{`, where `again` takes the buffer and the rest
unfoldable pub format_variable :
    (again : Bytes → Bytes → Result FormatError Bytes)
    → (bufsize : ℕ) → (buf : Bytes) → List EnvVariable
    → Bytes × Option Bytes
    → Result FormatError Bytes
unfolding find_variable append_variable
format_variable again bufsize buf var (key, none) = err syntax
format_variable again bufsize buf var (key, some rest) =
    bind (append_variable bufsize buf (find_variable key var)) (λ buf1. again buf1 rest)

-- the text up to `{`, where `go_on` takes the buffer and the text behind it
unfoldable pub format_text :
    (go_on : Bytes → Bytes → Result FormatError Bytes)
    → (bufsize : ℕ) → (buf : Bytes) → Bytes × Option Bytes
    → Result FormatError Bytes
unfolding append_buf
format_text go_on bufsize buf (text, none) = append_buf bufsize buf text
format_text go_on bufsize buf (text, some rest) =
    bind (append_buf bufsize buf text) (λ buf1. go_on buf1 rest)

unfoldable pub format_from :
    (fuel bufsize : ℕ) → List EnvVariable → (buf fmt : Bytes) → Result FormatError Bytes
unfolding split_at format_variable format_text
format_from zero bufsize var buf fmt = err out_of_fuel
format_from (suc fuel) bufsize var buf fmt =
    let again = format_from fuel bufsize var in
    format_text (λ buf1 rest. format_variable again bufsize buf1 var (split_at 125 rest)) bufsize
      buf (split_at 123 fmt)

unfoldable pub parse_format_element :
    (bufsize : ℕ) → (fmt : Bytes) → List EnvVariable → Result FormatError Bytes
unfolding format_from
parse_format_element bufsize fmt var = format_from (suc (length fmt)) bufsize var [] fmt
