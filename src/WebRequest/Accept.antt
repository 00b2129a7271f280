-- ===== src/WebRequest/Accept.antt =====
-- The lists of HTTP headers such as Accept: `parseAccept` and the choice of a result type in
-- src/webrequest/webRequestUtils.cpp. The weights are floating point numbers read by a function of
-- another library, so they are a parameter. The elements point into one buffer, so the order of
-- their pointers is that of the positions in it.
use strus_bindings.Base.{
  ℕ, zero, suc, ◌+◌, ◌-◌, Bool, true, false, ◌&&◌, ◌||◌, Option, none, some, List, [], ◌∷◌, ◌++◌,
  map, ltb, leb, ◌==◌, if◌then◌else◌, Bytes, codes, eq_bytes, length,
}
use strus_bindings.Base.Result.{Result, ok, err}
use strus_bindings.WebRequest.Content.{
  Fault, thrown, stuck, push_char, skip_spaces, parse_ident, parse_token, ◌>>=◌,
}

-- `weight` of AcceptElem: the order of the floats, the default 1.0, and `doubleFromString`
pub record Weights : Type 1 where
  pub Weight : Type 0
  pub greater : Weight → Weight → Bool
  pub default : Weight
  pub from_string : Bytes → Option Weight

abbrev pub elembuf_size : ℕ
elembuf_size = 512

abbrev pub strbuf_size : ℕ
strbuf_size = 8092

-- `toupper` and `tolower` of the C locale
unfoldable pub to_upper : ℕ → ℕ
to_upper c = if leb b'a' c && leb c b'z' then c - 32 else c

unfoldable pub to_lower : ℕ → ℕ
to_lower c = if leb b'A' c && leb c b'Z' then c + 32 else c

abbrev pub change_case : (upcase : Bool) → ℕ → ℕ
change_case upcase c = if upcase then to_upper c else to_lower c

unfoldable pub is_item_end : ℕ → Bool
is_item_end c = c == b',' || c == b';' || c == b'+'

-- the characters of an item, and what follows them
unfoldable pub take_item : Bytes → Bytes × Bytes
take_item [] = ([], [])
take_item (c ∷ cs) =
    let (item, rest) = take_item cs in if is_item_end c then ([], c ∷ cs) else (c ∷ item, rest)

unfoldable pub push_all : (size at : ℕ) → Bytes → Result Fault ℕ
push_all size at [] = ok at
push_all size at (c ∷ cs) = do next ← push_char size at; push_all size next cs

-- `push_prefix`: the text up to the slash
unfoldable pub prefix_text : Bytes → Result Fault Bytes
prefix_text [] = err thrown
prefix_text (c ∷ cs) =
    let rest = do head ← prefix_text cs; ok (c ∷ head)
    in if c == b'/' then ok (c ∷ []) else rest

unfoldable pub optional_prefix : Option Bytes → Result Fault Bytes
unfolding prefix_text
optional_prefix none = ok []
optional_prefix (some prefix) = prefix_text prefix

-- a '+' goes on with the last type as prefix, a ',' without
pub data Separator : Type 0 where
  plus comma other : Separator

unfoldable pub separator : Bytes → Separator × Bytes
separator [] = (other, [])
separator (c ∷ cs) =
    if c == b'+' then (plus, cs) else if c == b',' then (comma, cs) else (other, c ∷ cs)

unfoldable pub drop_char : ℕ → Bytes → Bytes
drop_char d [] = []
drop_char d (c ∷ cs) = if c == d then cs else c ∷ cs

unfoldable pub with_key : (key : Bytes) → Option (Bytes × Bytes) → Option (Bytes × Bytes × Bytes)
with_key key none = none
with_key key (some (word, rest)) = some (key, word, rest)

-- `parseAssigment` with the buffers of 32 and 64 bytes; `none` is the result false
unfoldable pub assigned : (key : Bytes) → Bytes → Result Fault (Option (Bytes × Bytes × Bytes))
unfolding with_key
assigned key [] = ok none
assigned key (c ∷ cs) =
    let value = do token ← parse_token cs 64; ok (with_key key token)
    in if c == b'=' then value else ok none

unfoldable pub assigned_ident :
    Option (Bytes × Bytes) → Result Fault (Option (Bytes × Bytes × Bytes))
unfolding assigned
assigned_ident none = ok none
assigned_ident (some (key, rest)) = assigned key rest

unfoldable pub parse_assignment : Bytes → Result Fault (Option (Bytes × Bytes × Bytes))
unfolding assigned_ident
parse_assignment src = do ident ← parse_ident src 32; assigned_ident ident

-- `none` is NULL, which stands for every exception
unfoldable pub or_null : {A : Type 0} → Result Fault A → Option A
or_null (ok a) = some a
or_null (err e) = none

module _ (ws : Weights) where
  open ws use {Weight, greater, default, from_string}

  pub record AcceptElem : Type 0 where
    pub weight : Weight
    pub type : Bytes
    pub position : ℕ

  -- `AcceptElem::operator<`
  unfoldable pub before : AcceptElem → AcceptElem → Bool
  before a b =
      if greater a.weight b.weight
      then true
      else if greater b.weight a.weight
      then false
      else ltb a.position b.position

  -- the rest of the header, `strbufpos`, and the elements of the buffer in the order of `elembuf`
  pub record Accepting : Type 0 where
    pub rest : Bytes
    pub strbufpos : ℕ
    pub elems : List AcceptElem

  unfoldable pub next_item :
      (upcase : Bool) → Option Bytes → Accepting → Result Fault (Bytes × Accepting)
  unfolding take_item optional_prefix push_all to_upper to_lower
  next_item upcase prefix s =
      let (item, rest) = take_item (skip_spaces s.rest) in
      if leb elembuf_size (length s.elems + 1) then err thrown else do
        head ← optional_prefix prefix
        let type = head ++ map (change_case upcase) item
        pos1 ← push_all strbuf_size s.strbufpos type
        pos2 ← push_char strbuf_size pos1
        ok (
          type,
          record {
            rest = rest;
            strbufpos = pos2;
            elems =
                s.elems ++ (record { weight = default; type = type; position = s.strbufpos } ∷ []);
          },
        )

  -- the end of a round of the inner loop, where `again` is the next one
  unfoldable pub end_round :
      (again : Option Bytes → Accepting → Result Fault Accepting) (type : Bytes) (s : Accepting)
      → Separator × Bytes
      → Result Fault Accepting
  end_round again type s (plus, rest) = again (some type) (record s { rest = rest })
  end_round again type s (comma, rest) = again none (record s { rest = rest })
  end_round again type s (other, rest) = ok (record s { rest = rest })

  -- the inner loop `for (;;)`
  unfoldable pub items :
      (fuel : ℕ) → (upcase : Bool) → Option Bytes → Accepting → Result Fault Accepting
  items zero upcase prefix s = err stuck
  items (suc fuel) upcase prefix s = do
    (type, s1) ← next_item upcase prefix s
    end_round (items fuel upcase) type s1 (separator s1.rest)

  -- the weight `w` for the elements from index `from` on
  unfoldable pub set_weights : (from : ℕ) → Weight → List AcceptElem → List AcceptElem
  set_weights from w [] = []
  set_weights zero w (e ∷ es) = record e { weight = w } ∷ set_weights zero w es
  set_weights (suc from) w (e ∷ es) = e ∷ set_weights from w es

  unfoldable pub assign_weight :
      (value : Bytes) → (from : ℕ) → Accepting → Result Fault (ℕ × Accepting)
  unfolding set_weights
  assign_weight value from s = elim (from_string value) [
    | none ↦ err thrown
    | some w ↦ ok (length s.elems, record s { elems = set_weights from w s.elems })
  ]

  unfoldable pub assign :
      (key value : Bytes) → (from : ℕ) → Accepting → Result Fault (ℕ × Accepting)
  unfolding assign_weight
  assign key value from s =
      if eq_bytes key (codes "q") then assign_weight value from s else ok (from, s)

  -- a round of the loop over the parameters, where `again` is the next one
  unfoldable pub assign_parameter :
      (again : ℕ → Accepting → Result Fault Accepting) (from : ℕ) (s : Accepting)
      → Option (Bytes × Bytes × Bytes)
      → Result Fault Accepting
  unfolding drop_char
  assign_parameter again from s none = ok s
  assign_parameter again from s (some (key, value, rest)) = do
    (from1, s1) ← assign key value from (record s { rest = rest })
    again from1 (record s1 { rest = drop_char b';' s1.rest })

  -- the loop over the parameters behind a ';'
  unfoldable pub parameters : (fuel from : ℕ) → Accepting → Result Fault Accepting
  parameters zero from s = err stuck
  parameters (suc fuel) from s = do
    assignment ← parse_assignment s.rest
    assign_parameter (parameters fuel) from s assignment

  -- the parameters, if a ';' follows the items
  unfoldable pub after_items : (fuel from : ℕ) → (rest : Bytes) → Accepting → Result Fault Accepting
  after_items fuel from [] s = ok s
  after_items fuel from (c ∷ cs) s =
      if c == b';' then parameters fuel from (record s { rest = cs }) else ok s

  -- the body of the outer loop, with fuel for the loops in it
  unfoldable pub group : (fuel : ℕ) → (upcase : Bool) → Accepting → Result Fault Accepting
  group fuel upcase s = do
    s1 ← items fuel upcase none s
    s2 ← after_items fuel (length s.elems) s1.rest s1
    ok (record s2 { rest = drop_char b',' s2.rest })

  -- the outer loop `while (*ai)`
  unfoldable pub groups : (fuel : ℕ) → (upcase : Bool) → Accepting → Result Fault Accepting
  groups zero upcase s = if length s.rest == 0 then ok s else err stuck
  groups (suc fuel) upcase s =
      let more = do s1 ← group (suc (length s.rest)) upcase s; groups fuel upcase s1
      in if length s.rest == 0 then ok s else more

  -- What `std::sort` of the standard library leaves: the positions of the elements of a header differ,
  -- so that there is one list in the order of `before`, whichever way it is sorted.
  unfoldable pub insert_elem : AcceptElem → List AcceptElem → List AcceptElem
  unfolding before
  insert_elem a [] = a ∷ []
  insert_elem a (b ∷ bs) = if before b a then b ∷ insert_elem a bs else a ∷ b ∷ bs

  unfoldable pub sort_elems : List AcceptElem → List AcceptElem
  unfolding insert_elem
  sort_elems [] = []
  sort_elems (a ∷ as') = insert_elem a (sort_elems as')

  unfoldable pub sorted : Accepting → Result Fault (List AcceptElem)
  unfolding sort_elems
  sorted s = if leb elembuf_size (length s.elems) then err thrown else ok (sort_elems s.elems)

  -- the fuel is one round for each byte of the header
  unfoldable pub scan_accept : (upcase : Bool) → Bytes → Result Fault (List AcceptElem)
  unfolding sorted
  scan_accept upcase header = do
    s ← groups (length header) upcase (record { rest = header; strbufpos = 0; elems = [] })
    sorted s

  unfoldable pub parse_accept : (upcase : Bool) → Bytes → Option (List AcceptElem)
  unfolding or_null
  parse_accept upcase header = or_null (scan_accept upcase header)
