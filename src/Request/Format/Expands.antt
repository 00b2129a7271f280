-- ===== src/Request/Format/Expands.antt =====
-- What `parseFormatElement` (src/webrequest/webRequestContext_env.cpp) makes of a format.
use strus_bindings.Base.{
  ℕ, zero, suc, ◌+◌, ◌<◌, ◌≤◌, ◌≡◌, refl, sym, ap, ◌∙◌, true, false, Option, none, some, List, [],
  ◌∷◌, ◌++◌, if◌then◌else◌, leb, length, length-append, append_assoc, Bytes, Without, Bool-cases,
  inl, inr, arith,
}
use strus_bindings.Base.Result.{Result, ok, err}
use strus_bindings.Request.Format.{
  FormatError, out_of_mem, EnvVariable, bind, append_buf, split_at, find_variable, append_variable,
  format_variable, format_text, format_from, parse_format_element,
}

-- A format is a text, then variables, each followed by a text.
abbrev pub Parts : Type 0
Parts = List (Bytes × Bytes)

abbrev pub print : (text : Bytes) → Parts → Bytes
print text [] = text
print text ((name, next) ∷ parts) = text ++ (123 ∷ name ++ (125 ∷ print next parts))

abbrev pub value_of : Option Bytes → Bytes
value_of none = []
value_of (some v) = v

abbrev pub expand : List EnvVariable → (text : Bytes) → Parts → Bytes
expand var text [] = text
expand var text ((name, next) ∷ parts) =
    text ++ (value_of (find_variable name var) ++ expand var next parts)

abbrev pub IsDefined : Option Bytes → Type 0
IsDefined none = ⊥
IsDefined (some v) = Unit

-- Texts have no `{`, names no `}`, and the variables are defined.
abbrev pub IsFormat : List EnvVariable → (text : Bytes) → Parts → Type 0
IsFormat var text [] = Without 123 text
IsFormat var text ((name, next) ∷ parts) =
    Without 123 text
    × Without 125 name
    × IsDefined (find_variable name var)
    × IsFormat var next parts

split_at-none : (c : ℕ) (cs : Bytes) → Without c cs → split_at c cs ≡ (cs, none)
unfolding split_at
split_at-none c [] h = refl
split_at-none c (d ∷ ds) h = rw h.0 (rw (split_at-none c ds h.1) refl)

split_at-some :
    (c : ℕ) (cs rest : Bytes) → Without c cs → split_at c (cs ++ (c ∷ rest)) ≡ (cs, some rest)
unfolding split_at
split_at-some c [] rest h = ground arith
split_at-some c (d ∷ ds) rest h = rw h.0 (rw (split_at-some c ds rest h.1) refl)

-- the text of the buffer with what it is to be appended, if that fits
abbrev pub fitted : (bufsize : ℕ) → Bytes → Result FormatError Bytes
fitted bufsize out = if leb bufsize (length out + 1) then err out_of_mem else ok out

append_buf-fitted :
    (size : ℕ) (buf ptr : Bytes) → append_buf size buf ptr ≡ fitted size (buf ++ ptr)
unfolding append_buf
append_buf-fitted size buf ptr = rw (length-append buf ptr) refl

fitted-overflow :
    (size : ℕ) (buf more : Bytes)
    → leb size (length buf + 1) ≡ true
    → fitted size (buf ++ more) ≡ err out_of_mem
fitted-overflow size buf more h =
    let e : leb size (length (buf ++ more) + 1) ≡ true =
      ground (arith, length-append buf more, h) in
    rw e refl

fitted-fits :
    (size : ℕ) (buf : Bytes) → leb size (length buf + 1) ≡ false → fitted size buf ≡ ok buf
fitted-fits size buf h = rw h refl

-- what follows an append that does not fit makes no difference
bind-fitted :
    (size : ℕ) (buf more : Bytes) (f : Bytes → Result FormatError Bytes)
    → f buf ≡ fitted size (buf ++ more)
    → bind (fitted size buf) f ≡ fitted size (buf ++ more)
bind-fitted size buf more f h = elim (Bool-cases (leb size (length buf + 1))) [
  | inl e ↦ ap (λ r. bind r f) (over e) ∙ sym (fitted-overflow size buf more e)
  | inr e ↦ ap (λ r. bind r f) (fitted-fits size buf e) ∙ h
]
  where
    over : leb size (length buf + 1) ≡ true → fitted size buf ≡ err out_of_mem
    over e = rw e refl

format_variable-fitted :
    (again : Bytes → Bytes → Result FormatError Bytes) (size : ℕ) (buf : Bytes)
    (var : List EnvVariable) (key rest more : Bytes) (found : Option Bytes)
    → find_variable key var ≡ found
    → IsDefined found
    → again (buf ++ value_of found) rest ≡ fitted size ((buf ++ value_of found) ++ more)
    → format_variable again size buf var (key, some rest)
      ≡ fitted size ((buf ++ value_of found) ++ more)
unfolding format_variable append_variable
format_variable-fitted again size buf var key rest more none e d h = absurd d
format_variable-fitted again size buf var key rest more (some v) e d h =
    ap (λ f. bind (append_variable size buf f) (λ b. again b rest)) e
    ∙ ap (λ r. bind r (λ b. again b rest)) (append_buf-fitted size buf v)
    ∙ bind-fitted size (buf ++ v) more (λ b. again b rest) h

format_from-fitted :
    (fuel size : ℕ) (var : List EnvVariable) (buf text : Bytes) (parts : Parts)
    → length parts < fuel
    → IsFormat var text parts
    → format_from fuel size var buf (print text parts) ≡ fitted size (buf ++ expand var text parts)
unfolding format_from format_text
format_from-fitted zero size var buf text parts l h = absurd (omega (arith, l))
format_from-fitted (suc fuel) size var buf text [] l h =
    rw (split_at-none 123 text h) (append_buf-fitted size buf text)
format_from-fitted (suc fuel) size var buf text ((name, next) ∷ parts) l h =
    let v = value_of (find_variable name var) in
    let more = expand var next parts in
    let again = format_from fuel size var in
    let step : Bytes → Result FormatError Bytes =
      λ b. format_variable again size b var (split_at 125 (name ++ (125 ∷ print next parts))) in
    rw (split_at-some 123 text (name ++ (125 ∷ print next parts)) h.0) (
      ap (λ r. bind r step) (append_buf-fitted size buf text)
      ∙ bind-fitted size (buf ++ text) (v ++ more) step (
          rw (split_at-some 125 name (print next parts) h.1) (
            format_variable-fitted again size (buf ++ text) var name (print next parts) more
              (find_variable name var) refl h.2
              (format_from-fitted fuel size var ((buf ++ text) ++ v) next parts (omega (arith, l))
                h.3)
            ∙ ap (fitted size) (append_assoc (buf ++ text) v more)))
      ∙ ap (fitted size) (append_assoc buf text (v ++ more)))

length_parts : (text : Bytes) (parts : Parts) → length parts ≤ length (print text parts)
length_parts text [] = omega arith
length_parts text ((name, next) ∷ parts) = omega (
  arith,
  length_parts next parts,
  length-append text (123 ∷ name ++ (125 ∷ print next parts)),
  length-append name (125 ∷ print next parts),
)

-- A format of texts without `{` and of defined variables, whose names have no `}`, becomes the texts
-- with the values of the variables between them, if these and a closing 0 take less than the size of
-- the buffer, and the error for memory if they do not; the loop ends in either case.
pub parse_format_element-print :
    (bufsize : ℕ) (var : List EnvVariable) (text : Bytes) (parts : Parts)
    → IsFormat var text parts
    → parse_format_element bufsize (print text parts) var ≡ fitted bufsize (expand var text parts)
unfolding parse_format_element
parse_format_element-print bufsize var text parts h =
    format_from-fitted (suc (length (print text parts))) bufsize var [] text parts
      (omega (arith, length_parts text parts)) h
