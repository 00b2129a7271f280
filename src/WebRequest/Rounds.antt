-- ===== src/WebRequest/Rounds.antt =====
-- The rounds of the inner loops of `parseAccept` (src/webrequest/webRequestUtils.cpp) consume the
-- header and stay in the buffers.
use strus_bindings.Base.{
  ℕ, zero, suc, ◌+◌, ◌<◌, ◌≤◌, ◌≡◌, refl, ap, Bool, true, Option, none, some, List, [], ◌∷◌, ◌++◌,
  map, leb, ◌==◌, Bytes, codes, eq_bytes, length, length-append, arith, ◌⊎◌, inl, inr, Bool-cases,
  Option-cases,
}
use strus_bindings.Base.Result.{Result}
use strus_bindings.WebRequest.Content.{Fault, push_char, skip_spaces, parse_ident, parse_token}
use strus_bindings.WebRequest.Scanning.{
  Ensures, bind-Ensures, Ensures-mono, length-skip_spaces, push_char-Ensures, push_all-Ensures,
  Shortens, parse_ident-Ensures, parse_token-Ensures,
}
use strus_bindings.WebRequest.Accept.{
  Weights, AcceptElem, Accepting, elembuf_size, strbuf_size, is_item_end, take_item, push_all,
  prefix_text, optional_prefix, Separator, plus, comma, other, separator, drop_char, with_key,
  assigned, assigned_ident, parse_assignment, next_item, items, set_weights, assign_weight, assign,
  end_round, change_case,
}

-- `none`, or something with a shorter rest
abbrev pub Assigns : Bytes → Option (Bytes × Bytes × Bytes) → Type 0
Assigns src none = Unit
Assigns src (some (key, value, rest)) = length rest < length src

with_key-Assigns :
    (src cs key : Bytes) (o : Option (Bytes × Bytes))
    → length cs ≤ length src
    → Shortens cs o
    → Assigns src (with_key key o)
unfolding with_key
with_key-Assigns src cs key none h s = tt
with_key-Assigns src cs key (some (word, rest)) h s = omega arith

assigned-Ensures :
    (src key rest : Bytes) → length rest ≤ length src → Ensures (Assigns src) (assigned key rest)
unfolding assigned
assigned-Ensures src key [] h = tt
assigned-Ensures src key (c ∷ cs) h = elim (Bool-cases (c == b'=')) [
  | inl e ↦ rw e (
      bind-Ensures (Shortens cs) (Assigns src) (parse_token cs 64) _ (parse_token-Ensures cs 64)
        λ o s. with_key-Assigns src cs key o (omega arith) s)
  | inr e ↦ rw e tt
]

assigned_ident-Ensures :
    (src : Bytes) (o : Option (Bytes × Bytes))
    → Shortens src o
    → Ensures (Assigns src) (assigned_ident o)
unfolding assigned_ident
assigned_ident-Ensures src none s = tt
assigned_ident-Ensures src (some (key, rest)) s = assigned-Ensures src key rest (omega arith)

pub parse_assignment-Ensures : (src : Bytes) → Ensures (Assigns src) (parse_assignment src)
unfolding parse_assignment
parse_assignment-Ensures src =
    bind-Ensures (Shortens src) (Assigns src) (parse_ident src 32) _ (parse_ident-Ensures src 32)
      (assigned_ident-Ensures src)

pub length-drop_char : (d : ℕ) (cs : Bytes) → length (drop_char d cs) ≤ length cs
unfolding drop_char
length-drop_char d [] = omega arith
length-drop_char d (c ∷ cs) = ground arith

length-take_item : (cs : Bytes) → length (take_item cs).0 + length (take_item cs).1 ≡ length cs
unfolding take_item
length-take_item [] = omega arith
length-take_item (c ∷ cs) = ground (arith, length-take_item cs)

-- The rest is shorter, or it begins with a ';' or is empty.
abbrev pub IsSemicolon : Bytes → Type 0
IsSemicolon [] = Unit
IsSemicolon (c ∷ cs) = c ≡ b';'

abbrev pub Stops : Bytes → Bytes → Type 0
Stops r r1 = (length r1 < length r) ⊎ ((length r1 ≤ length r) × IsSemicolon r1)

-- A '+' or a ',' is consumed.
abbrev Consumes : Bytes → Separator × Bytes → Type 0
Consumes r (plus, r1) = length r1 < length r
Consumes r (comma, r1) = length r1 < length r
Consumes r (other, r1) = Stops r r1

separator-Consumes_lt : (r t : Bytes) → length t < length r → Consumes r (separator t)
unfolding separator
separator-Consumes_lt r [] h = inl h
separator-Consumes_lt r (c ∷ cs) h = elim (Bool-cases (c == b'+')) [
  | inl e ↦ rw e (omega arith)
  | inr e ↦ elim (Bool-cases (c == b',')) [
    | inl e' ↦ rw (e, e') (omega arith)
    | inr e' ↦ rw (e, e') (inl h)
  ]
]

separator-Consumes_end :
    (r : Bytes) (c : ℕ) (cs : Bytes)
    → length cs < length r
    → is_item_end c ≡ true
    → Consumes r (separator (c ∷ cs))
unfolding separator is_item_end
separator-Consumes_end r c cs lt h = elim (Bool-cases (c == b'+')) [
  | inl e ↦ rw e (omega arith)
  | inr e ↦ elim (Bool-cases (c == b',')) [
    | inl e' ↦ rw (e, e') (omega arith)
    | inr e' ↦ rw (e, e') (inr (omega arith, ground arith))
  ]
]

take_item-Consumes : (r t : Bytes) → length t ≤ length r → Consumes r (separator (take_item t).1)
unfolding take_item separator
take_item-Consumes r [] h = inr (h, tt)
take_item-Consumes r (c ∷ cs) h = elim (Bool-cases (is_item_end c)) [
  | inl e ↦ rw e (separator-Consumes_end r c cs h e)
  | inr e ↦ rw e (separator-Consumes_lt r (take_item cs).1 (omega (arith, length-take_item cs)))
]

prefix_text-Ensures : (cs : Bytes) → Ensures (λ t. Unit {0}) (prefix_text cs)
unfolding prefix_text
prefix_text-Ensures [] = tt
prefix_text-Ensures (c ∷ cs) = elim (Bool-cases (c == b'/')) [
  | inl e ↦ rw e tt
  | inr e ↦ rw e (
      bind-Ensures (λ t. Unit {0}) (λ t. Unit {0}) (prefix_text cs) _ (prefix_text-Ensures cs)
        λ t _. tt)
]

optional_prefix-Ensures : (o : Option Bytes) → Ensures (λ t. Unit {0}) (optional_prefix o)
unfolding optional_prefix
optional_prefix-Ensures none = tt
optional_prefix-Ensures (some cs) = prefix_text-Ensures cs

module _ (ws : Weights) where
  -- The positions lie in the buffers.
  pub record Fits (s : Accepting ws) : Type 0 where
    pub in_strbuf : s.strbufpos < strbuf_size
    pub in_elembuf : length s.elems < elembuf_size

  abbrev Item : (upcase : Bool) → Accepting ws → Bytes × Accepting ws → Type 0
  Item upcase s t = Fits t.1 × (t.1.rest ≡ (take_item (skip_spaces s.rest)).1)

  next_item-Ensures :
      (upcase : Bool) (prefix : Option Bytes) (s : Accepting ws)
      → Ensures (Item upcase s) (next_item ws upcase prefix s)
  unfolding next_item
  next_item-Ensures upcase prefix s = elim (Bool-cases (leb elembuf_size (length s.elems + 1))) [
    | inl e ↦ rw e tt
    | inr e ↦ rw e (
        bind-Ensures (λ t. Unit {0}) (Item upcase s) (optional_prefix prefix) _
          (optional_prefix-Ensures prefix)
          λ head _.
            let type = head ++ map (change_case upcase) (take_item (skip_spaces s.rest)).0 in
            bind-Ensures (λ t. Unit {0}) (Item upcase s) (push_all strbuf_size s.strbufpos type) _
              (push_all-Ensures strbuf_size s.strbufpos type)
              λ pos1 _.
                bind-Ensures (λ next. next < strbuf_size) (Item upcase s)
                  (push_char strbuf_size pos1) _ (push_char-Ensures strbuf_size pos1)
                  λ pos2 lt. (
                    record {
                      in_strbuf = lt;
                      in_elembuf = ground (
                        arith,
                        length-append s.elems (
                            record { weight = ws.default; type = type; position = s.strbufpos }
                            ∷ []),
                      );
                    },
                    refl,
                  ))
  ]

  abbrev pub Itemised : Bytes → Accepting ws → Type 0
  Itemised r s = Fits s × Stops r s.rest

  Stops-trans : (r r1 r2 : Bytes) → length r1 < length r → Stops r1 r2 → Stops r r2
  Stops-trans r r1 r2 h (inl lt) = inl (omega arith)
  Stops-trans r r1 r2 h (inr (le, semi)) = inr (omega arith, semi)

  end_round-Ensures :
      (fuel : ℕ) (again : Option Bytes → Accepting ws → Result Fault (Accepting ws))
      (r type : Bytes) (s : Accepting ws) (t : Separator × Bytes)
      → length r < suc fuel
      → Fits s
      → Consumes r t
      → ((prefix : Option Bytes) (q : Accepting ws)
          → length q.rest < fuel
          → Ensures (Itemised q.rest) (again prefix q))
      → Ensures (Itemised r) (end_round ws again type s t)
  unfolding end_round
  end_round-Ensures fuel again r type s (plus, rest) lt f c h =
      Ensures-mono (Itemised rest) (Itemised r) _ (λ q i. (i.0, Stops-trans r rest q.rest c i.1))
        (h (some type) (record s { rest = rest }) (omega arith))
  end_round-Ensures fuel again r type s (comma, rest) lt f c h =
      Ensures-mono (Itemised rest) (Itemised r) _ (λ q i. (i.0, Stops-trans r rest q.rest c i.1))
        (h none (record s { rest = rest }) (omega arith))
  end_round-Ensures fuel again r type s (other, rest) lt f c h =
      (record { in_strbuf = f.in_strbuf; in_elembuf = f.in_elembuf }, c)

  pub items-Ensures :
      (fuel : ℕ) (upcase : Bool) (prefix : Option Bytes) (s : Accepting ws)
      → length s.rest < fuel
      → Ensures (Itemised s.rest) (items ws fuel upcase prefix s)
  unfolding items
  items-Ensures zero upcase prefix s h = absurd (omega arith)
  items-Ensures (suc fuel) upcase prefix s h =
      bind-Ensures (Item upcase s) (Itemised s.rest) (next_item ws upcase prefix s) _
        (next_item-Ensures upcase prefix s)
        λ t i.
          end_round-Ensures fuel (items ws fuel upcase) s.rest t.0 t.1 (separator t.1.rest) h i.0
            (rw i.1 (take_item-Consumes s.rest (skip_spaces s.rest) (length-skip_spaces s.rest)))
            (λ p q lt. items-Ensures fuel upcase p q lt)

  length-set_weights :
      (from : ℕ) (w : ws.Weight) (es : List (AcceptElem ws))
      → length (set_weights ws from w es) ≡ length es
  unfolding set_weights
  length-set_weights from w [] = refl
  length-set_weights zero w (e ∷ es) = ap suc (length-set_weights zero w es)
  length-set_weights (suc from) w (e ∷ es) = ap suc (length-set_weights from w es)

  abbrev pub Kept : Accepting ws → ℕ × Accepting ws → Type 0
  Kept s t = Fits t.1 × (t.1.rest ≡ s.rest)

  assign_weight-Ensures :
      (value : Bytes) (from : ℕ) (s : Accepting ws)
      → Fits s
      → Ensures (Kept s) (assign_weight ws value from s)
  unfolding assign_weight
  assign_weight-Ensures value from s f = elim (Option-cases (ws.from_string value)) [
    | inl e ↦ rw (e, assign_weight) tt
    | inr (w, e) ↦
        rw (e, assign_weight)
          (
            record {
              in_strbuf = f.in_strbuf;
              in_elembuf = rw (length-set_weights from w s.elems) f.in_elembuf;
            },
            refl,
          )
  ]

  pub assign-Ensures :
      (key value : Bytes) (from : ℕ) (s : Accepting ws)
      → Fits s
      → Ensures (Kept s) (assign ws key value from s)
  unfolding assign
  assign-Ensures key value from s f = elim (Bool-cases (eq_bytes key (codes "q"))) [
    | inl e ↦ rw e (assign_weight-Ensures value from s f)
    | inr e ↦ rw e (f, refl)
  ]
