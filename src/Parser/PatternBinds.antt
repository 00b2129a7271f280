-- ===== src/Parser/PatternBinds.antt =====
-- A pattern that matches defines its variables (src/parser/interfaceParser.cpp).
use strus_bindings.Base.{
  ◌≡◌, refl, ap, subst, not, ◌&&◌, Option, none, some, List, [], ◌∷◌, ◌++◌, Bytes, codes, eq_bytes,
  eq_bytes_refl, is_empty, arith, ◌⊎◌, inl, inr, Bool-cases,
}
use strus_bindings.Base.Result.{ok}
use strus_bindings.Parser.Lexical.{skip_spaces}
use strus_bindings.Parser.Annotations.{◌>>=◌}
use strus_bindings.Parser.Output.{
  DefMap, Chunk, output_string, output_variable, find, assign, or_undefined, print_chunk, print,
}
use strus_bindings.Parser.Pattern.{
  TokenDef, token_operator, token_identifier, token_variable, token_suffix, Match, go_on,
  bind_variable, lone_suffix, after_operator, after_identifier, identifier_at, suffixed_at,
  match_tokens, parse_pattern,
}

abbrev pub IsDefined : DefMap → Bytes → Type 0
IsDefined d k = (v : Bytes) × (find k d ≡ some v)

find-assign : (k v : Bytes) (m : DefMap) → find k (assign k v m) ≡ some v
unfolding find assign
find-assign k v [] = rw (eq_bytes_refl k) refl
find-assign k v ((l, w) ∷ m) = elim (Bool-cases (eq_bytes l k)) [
  | inl e ↦ rw e (rw e refl)
  | inr e ↦ rw e (rw e (find-assign k v m))
]

IsDefined-assign : (j k v : Bytes) (m : DefMap) → IsDefined m j → IsDefined (assign k v m) j
unfolding assign find
IsDefined-assign j k v [] (x, e) = ground arith
IsDefined-assign j k v ((l, w) ∷ m) (x, e) = elim (Bool-cases (eq_bytes l k)) [
  | inl f ↦ rw f (elim (Bool-cases (eq_bytes l j)) [
    | inl g ↦ (v, rw g refl)
    | inr g ↦ (x, rw g (ground arith))
  ])
  | inr f ↦ rw f (elim (Bool-cases (eq_bytes l j)) [
    | inl g ↦ (w, rw g refl)
    | inr g ↦ rw g (IsDefined-assign j k v m (x, ground arith))
  ])
]

go_on-some :
    (again : Bytes → Match) (o : Option Bytes) (r : DefMap × Bytes)
    → go_on again o ≡ ok (some r)
    → (rest : Bytes) × (again rest ≡ ok (some r))
unfolding go_on
go_on-some again none r h = ground arith
go_on-some again (some rest) r h = (rest, h)

bind_variable-some :
    (again : DefMap → Bytes → Match) (v : Bytes) (d : DefMap) (o : Option (Bytes × Bytes))
    (r : DefMap × Bytes)
    → bind_variable again v d o ≡ ok (some r)
    → (ident rest : Bytes) × (again (assign v ident d) rest ≡ ok (some r))
unfolding bind_variable
bind_variable-some again v d none r h = ground arith
bind_variable-some again v d (some (ident, rest)) r h = (ident, rest, h)

lone_suffix-some : (src : Bytes) (r : DefMap × Bytes) → lone_suffix src ≡ ok (some r) → ⊥
unfolding lone_suffix
lone_suffix-some [] r h = ground arith
lone_suffix-some (c ∷ cs) r h = ground arith

-- the variables of a pattern
unfoldable pub variables : List TokenDef → List Bytes
variables [] = []
variables (token_operator v ∷ ts) = variables ts
variables (token_identifier v ∷ ts) = variables ts
variables (token_variable v ∷ ts) = v ∷ variables ts
variables (token_suffix v ∷ ts) = variables ts

abbrev pub AllDefined : DefMap → List Bytes → Type 0
AllDefined d [] = Unit
AllDefined d (v ∷ vs) = IsDefined d v × AllDefined d vs

Binds : DefMap → List TokenDef → DefMap → Type 0
Binds d ts d1 = ((k : Bytes) → IsDefined d k → IsDefined d1 k) × AllDefined d1 (variables ts)

Binds-variable :
    (v ident : Bytes) (d : DefMap) (ts : List TokenDef) (d1 : DefMap)
    → Binds (assign v ident d) ts d1
    → ((k : Bytes) → IsDefined d k → IsDefined d1 k)
      × (IsDefined d1 v × AllDefined d1 (variables ts))
unfolding Binds
Binds-variable v ident d ts d1 (keeps, all) = (
  (λ k h. keeps k (IsDefined-assign k v ident d h)),
  (keeps v (ident, find-assign v ident d), all),
)

match_tokens-Binds :
    (ts : List TokenDef) (d : DefMap) (src : Bytes) (r : DefMap × Bytes)
    → match_tokens d ts src ≡ ok (some r)
    → Binds d ts r.0
unfolding match_tokens variables Binds
match_tokens-Binds [] d src r h =
    let same : (d, src) ≡ r = ground arith in ((λ k e. subst (λ p. IsDefined p.0 k) same e), tt)
match_tokens-Binds (token_operator v ∷ ts) d src r h =
    let (rest, e) = go_on-some (match_tokens d ts) (after_operator v (skip_spaces src)) r h in
    match_tokens-Binds ts d rest r e
match_tokens-Binds (token_identifier v ∷ ts) d src r h =
    let (rest, e) = go_on-some (match_tokens d ts) (after_identifier v (skip_spaces src)) r h in
    match_tokens-Binds ts d rest r e
match_tokens-Binds (token_variable v ∷ token_suffix w ∷ ts) d src r h =
    let (ident, rest, e) =
      bind_variable-some (λ m. match_tokens m ts) v d (suffixed_at w (skip_spaces src)) r h in
    Binds-variable v ident d ts r.0 (match_tokens-Binds ts (assign v ident d) rest r e)
match_tokens-Binds (token_variable v ∷ []) d src r h =
    let (ident, rest, e) =
      bind_variable-some (λ m. match_tokens m []) v d (identifier_at (skip_spaces src)) r h in
    Binds-variable v ident d [] r.0 (match_tokens-Binds [] (assign v ident d) rest r e)
match_tokens-Binds (token_variable v ∷ token_operator w ∷ ts) d src r h =
    let (ident, rest, e) =
      bind_variable-some (λ m. match_tokens m (token_operator w ∷ ts)) v d
        (identifier_at (skip_spaces src)) r h in
    Binds-variable v ident d (token_operator w ∷ ts) r.0
      (match_tokens-Binds (token_operator w ∷ ts) (assign v ident d) rest r e)
match_tokens-Binds (token_variable v ∷ token_identifier w ∷ ts) d src r h =
    let (ident, rest, e) =
      bind_variable-some (λ m. match_tokens m (token_identifier w ∷ ts)) v d
        (identifier_at (skip_spaces src)) r h in
    Binds-variable v ident d (token_identifier w ∷ ts) r.0
      (match_tokens-Binds (token_identifier w ∷ ts) (assign v ident d) rest r e)
match_tokens-Binds (token_variable v ∷ token_variable w ∷ ts) d src r h =
    let (ident, rest, e) =
      bind_variable-some (λ m. match_tokens m (token_variable w ∷ ts)) v d
        (identifier_at (skip_spaces src)) r h in
    Binds-variable v ident d (token_variable w ∷ ts) r.0
      (match_tokens-Binds (token_variable w ∷ ts) (assign v ident d) rest r e)
match_tokens-Binds (token_suffix v ∷ ts) d src r h = absurd (lone_suffix-some (skip_spaces src) r h)

abbrev pub IsAmong : Bytes → List Bytes → Type 0
IsAmong v [] = ⊥
IsAmong v (w ∷ ws) = (w ≡ v) ⊎ IsAmong v ws

-- the variables of an output are variables of the pattern
abbrev pub UsesOnly : List Bytes → List Chunk → Type 0
UsesOnly vs [] = Unit
UsesOnly vs (output_string s ∷ chunks) = UsesOnly vs chunks
UsesOnly vs (output_variable v ∷ chunks) = IsAmong v vs × UsesOnly vs chunks

defined :
    (d : DefMap) (v : Bytes) (vs : List Bytes) → AllDefined d vs → IsAmong v vs → IsDefined d v
defined d v [] a m = elim m [ ]
defined d v (w ∷ ws) a (inl e) = subst (λ k. IsDefined d k) e a.0
defined d v (w ∷ ws) a (inr m) = defined d v ws a.1 m

print_chunk-variable :
    (d : DefMap) (name value v : Bytes)
    → IsDefined d v
    → (text : Bytes) × (print_chunk d name value (output_variable v) ≡ ok text)
unfolding print_chunk or_undefined
print_chunk-variable d name value v (w, e) =
    elim (Bool-cases (eq_bytes v (codes "name") && not (is_empty name))) [
      | inl f ↦ (name, rw f refl)
      | inr f ↦ elim (Bool-cases (eq_bytes v (codes "value") && not (is_empty value))) [
        | inl g ↦ (value, rw f (rw g refl))
        | inr g ↦ (w, rw f (rw g (ap or_undefined e)))
      ]
    ]

print-AllDefined :
    (d : DefMap) (vs : List Bytes) (name value : Bytes) (chunks : List Chunk)
    → AllDefined d vs
    → UsesOnly vs chunks
    → (text : Bytes) × (print d name value chunks ≡ ok text)
unfolding print
print-AllDefined d vs name value [] a u = ([], refl)
print-AllDefined d vs name value (output_string s ∷ chunks) a u =
    let (text, e) = print-AllDefined d vs name value chunks a u in
    (s ++ text, ap (λ r. r >>= (λ rest. ok (s ++ rest))) e)
print-AllDefined d vs name value (output_variable v ∷ chunks) a u =
    let (first, f) = print_chunk-variable d name value v (defined d v vs a u.0) in
    let (text, e) = print-AllDefined d vs name value chunks a u.1 in
    (first ++ text, rw f (ap (λ r. r >>= (λ rest. ok (first ++ rest))) e))

-- Where a pattern matches a source, an output that uses no other variables than those of the pattern is
-- printed without an error, whatever name and value it is given.
pub parse_pattern-print :
    (tokens : List TokenDef) (src : Bytes) (r : DefMap × Bytes) (name value : Bytes)
    (chunks : List Chunk)
    → parse_pattern tokens src ≡ ok (some r)
    → UsesOnly (variables tokens) chunks
    → (text : Bytes) × (print r.0 name value chunks ≡ ok text)
unfolding parse_pattern Binds
parse_pattern-print tokens src r name value chunks h u =
    print-AllDefined r.0 (variables tokens) name value chunks
      (match_tokens-Binds tokens [] src r h).1 u
