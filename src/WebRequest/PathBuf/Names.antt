-- ===== src/WebRequest/PathBuf/Names.antt =====
-- The names of a path (src/webrequest/pathBuf.hpp) are the non-empty texts between its slashes.
use strus_bindings.Base.{
  ℕ, zero, suc, ◌-◌, ◌≤◌, ◌≡◌, refl, ap, sym, ◌∙◌, Bool, true, false, Option, none, some, List, [],
  ◌∷◌, leb, ◌==◌, if◌then◌else◌, Bytes, length, arith, inl, inr, Bool-cases,
}
use strus_bindings.WebRequest.PathBuf.{
  PathBuf, slash, buf_size, skip_slashes, new_path, take_name, step_over, next_of, get_next,
}

unfoldable pub push_head : ℕ → List Bytes → List Bytes
push_head c [] = (c ∷ []) ∷ []
push_head c (piece ∷ pieces) = (c ∷ piece) ∷ pieces

-- the texts between the slashes
unfoldable pub split : Bytes → List Bytes
unfolding push_head
split [] = [] ∷ []
split (c ∷ cs) = let pieces = split cs in if c == slash then [] ∷ pieces else push_head c pieces

unfoldable pub non_empty : List Bytes → List Bytes
non_empty [] = []
non_empty ([] ∷ pieces) = non_empty pieces
non_empty ((c ∷ cs) ∷ pieces) = (c ∷ cs) ∷ non_empty pieces

-- the names of a path
unfoldable pub names : Bytes → List Bytes
unfolding split non_empty
names path = non_empty (split path)

unfoldable pub read_on : (again : PathBuf → List Bytes) → Option Bytes × PathBuf → List Bytes
read_on again (none, s) = []
read_on again (some name, s) = name ∷ again s

-- `getNext` until it returns NULL
unfoldable pub read_names : (fuel : ℕ) → PathBuf → List Bytes
unfolding get_next read_on
read_names zero s = []
read_names (suc fuel) s = read_on (read_names fuel) (get_next s)

skip_slashes_other : (c : ℕ) (cs : Bytes) → (c == slash) ≡ false → skip_slashes (c ∷ cs) ≡ c ∷ cs
unfolding skip_slashes
skip_slashes_other c cs e = rw e refl

pub names-skip_slashes : (cs : Bytes) → names (skip_slashes cs) ≡ names cs
unfolding names split non_empty skip_slashes
names-skip_slashes [] = refl
names-skip_slashes (c ∷ cs) = elim (Bool-cases (c == slash)) [
  | inl e ↦ rw e (names-skip_slashes cs)
  | inr e ↦ ap names (skip_slashes_other c cs e)
]

after_pieces : Option Bytes → List Bytes
after_pieces none = []
after_pieces (some after) = split after

split-take_name : (cs : Bytes) → split cs ≡ (take_name cs).0 ∷ after_pieces (take_name cs).1
unfolding split push_head take_name after_pieces
split-take_name [] = refl
split-take_name (c ∷ cs) = elim (Bool-cases (c == slash)) [
  | inl e ↦ rw e refl
  | inr e ↦ rw e (ap (push_head c) (split-take_name cs))
]

-- Neither a slash before the first name nor an empty name is left at the iterator.
abbrev pub IsTight : Bytes → Type 0
IsTight [] = Unit
IsTight (c ∷ cs) = (c == slash) ≡ false

pub skip_slashes-IsTight : (cs : Bytes) → IsTight (skip_slashes cs)
unfolding skip_slashes
skip_slashes-IsTight [] = tt
skip_slashes-IsTight (c ∷ cs) = elim (Bool-cases (c == slash)) [
  | inl e ↦ rw e (skip_slashes-IsTight cs)
  | inr e ↦ rw e e
]

length-skip_slashes : (cs : Bytes) → length (skip_slashes cs) ≤ length cs
unfolding skip_slashes
length-skip_slashes [] = omega arith
length-skip_slashes (c ∷ cs) = ground (arith, length-skip_slashes cs)

length_after : Option Bytes → ℕ
length_after none = 0
length_after (some after) = length after

length-take_name : (cs : Bytes) → length_after (take_name cs).1 ≤ length cs
unfolding take_name length_after
length-take_name [] = omega arith
length-take_name (c ∷ cs) = elim (Bool-cases (c == slash)) [
  | inl e ↦ rw e (omega arith)
  | inr e ↦ rw e (let h = length-take_name cs in omega arith)
]

step_over-IsTight :
    (before name : Bytes) (after : Option Bytes) → IsTight (step_over before name after).rest
unfolding step_over
step_over-IsTight before name none = tt
step_over-IsTight before name (some after) = skip_slashes-IsTight after

length-step_over :
    (before name : Bytes) (after : Option Bytes)
    → length (step_over before name after).rest ≤ length_after after
unfolding step_over length_after
length-step_over before name none = omega arith
length-step_over before name (some after) = length-skip_slashes after

names-step_over :
    (before name : Bytes) (after : Option Bytes)
    → names (step_over before name after).rest ≡ non_empty (after_pieces after)
unfolding step_over after_pieces names non_empty split
names-step_over before name none = refl
names-step_over before name (some after) = names-skip_slashes after

-- The first name of a text that starts with no slash is not empty.
names-next :
    (c : ℕ) (cs : Bytes)
    → (c == slash) ≡ false
    → names (c ∷ cs) ≡ (c ∷ (take_name cs).0) ∷ non_empty (after_pieces (take_name cs).1)
unfolding names split push_head non_empty
names-next c cs h = rw h (rw (split-take_name cs) refl)

get_next_name :
    (before : Bytes) (c : ℕ) (cs : Bytes)
    → (c == slash) ≡ false
    → get_next (record { before = before; rest = c ∷ cs })
      ≡ (some (c ∷ (take_name cs).0), step_over before (c ∷ (take_name cs).0) (take_name cs).1)
unfolding get_next next_of take_name
get_next_name before c cs t = rw t refl

read_names_none :
    (fuel : ℕ) (before : Bytes) → read_names (suc fuel) (record { before = before; rest = [] }) ≡ []
unfolding read_names get_next next_of read_on
read_names_none fuel before = refl

names_none : names [] ≡ []
unfolding names split non_empty
names_none = refl

read_names-IsTight :
    (fuel : ℕ) (before rest : Bytes)
    → IsTight rest
    → length rest ≤ fuel
    → read_names fuel (record { before = before; rest = rest }) ≡ names rest
unfolding read_names read_on
read_names-IsTight zero before [] t h = sym names_none
read_names-IsTight zero before (c ∷ cs) t h = ground arith
read_names-IsTight (suc fuel) before [] t h = read_names_none fuel before ∙ sym names_none
read_names-IsTight (suc fuel) before (c ∷ cs) t h =
    let name = c ∷ (take_name cs).0 in
    let after = (take_name cs).1 in
    let s1 = step_over before name after in
    let smaller : length s1.rest ≤ fuel =
      let a = length-step_over before name after in let b = length-take_name cs in omega arith in
    let again : read_names fuel s1 ≡ names s1.rest =
      read_names-IsTight fuel s1.before s1.rest (step_over-IsTight before name after) smaller in
    ap (read_on (read_names fuel)) (get_next_name before c cs t)
    ∙ (ap (λ more. name ∷ more) (again ∙ names-step_over before name after)
        ∙ sym (names-next c cs t))

if_some : {A : Type 0} (b : Bool) (x y : A) → (if b then none else some x) ≡ some y → x ≡ y
if_some true x y h = ground arith
if_some false x y h = ground arith

-- A path that fits in the buffer is read to its end in at most as many calls of `getNext` as it has
-- bytes: the calls return the non-empty texts between its slashes, in order.
pub read_names-new_path :
    (path : Bytes) (s : PathBuf) → new_path path ≡ some s → read_names (length path) s ≡ names path
unfolding new_path
read_names-new_path path s h =
    let text = skip_slashes path in
    let e : record { before = []; rest = text } ≡ s =
      if_some (leb (buf_size - 1) (length text)) (record { before = []; rest = text }) s h in
    ap (read_names (length path)) (sym e)
    ∙ read_names-IsTight (length path) [] text (skip_slashes-IsTight path)
        (length-skip_slashes path)
    ∙ names-skip_slashes path
