-- ===== src/WebRequest/PathBuf.antt =====
-- The path of a request with the iterator over its names: `PathBuf` of src/webrequest/pathBuf.hpp.
use strus_bindings.Base.{
  ℕ, zero, suc, ◌+◌, ◌-◌, ◌≤◌, ◌≡◌, ◌≢◌, refl, Bool, true, false, not, ◌&&◌, ◌||◌, Option, none,
  some, List, [], ◌∷◌, ◌++◌, ltb, leb, ◌==◌, if◌then◌else◌, Bytes, eq_bytes, length, take, set,
}
pub mod Names
pub mod Rest

-- `buf` as it lies before `itr`, and the C string that starts at `itr`. What follows its closing 0
-- is never read again.
pub record PathBuf : Type 0 where
  pub before : Bytes
  pub rest : Bytes

abbrev pub slash : ℕ
slash = b'/'

abbrev pub buf_size : ℕ
buf_size = 512

unfoldable pub empty_path : PathBuf
empty_path = record { before = []; rest = [] }

unfoldable pub skip_slashes : Bytes → Bytes
skip_slashes [] = []
skip_slashes (c ∷ cs) = if c == slash then skip_slashes cs else c ∷ cs

-- the constructor; `none` is `std::bad_alloc`. `snprintf` returns the length of the text.
unfoldable pub new_path : Bytes → Option PathBuf
unfolding skip_slashes
new_path pt =
    let text = skip_slashes pt in
    if leb (buf_size - 1) (length text) then none else some (record { before = []; rest = text })

-- the text up to the next slash, and what follows the slash if there is one
unfoldable pub take_name : Bytes → Bytes × Option Bytes
take_name [] = ([], none)
take_name (c ∷ cs) =
    let (name, after) = take_name cs in if c == slash then ([], some cs) else (c ∷ name, after)

-- the first byte of a C string
unfoldable pub first_byte : Bytes → ℕ
first_byte [] = 0
first_byte (c ∷ cs) = c

unfoldable pub equals_name : (prefix : Bytes) → (prefixlen : ℕ) → (rest name : Bytes) → Bool
unfolding first_byte
equals_name prefix prefixlen rest name =
    (prefixlen == length name)
    && ((first_byte prefix == first_byte rest)
        && eq_bytes (take prefixlen prefix) (take prefixlen rest))

unfoldable pub starts_with : (prefix : Bytes) → (prefixlen : ℕ) → PathBuf → Bool
unfolding take_name equals_name
starts_with prefix prefixlen s = equals_name prefix prefixlen s.rest (take_name s.rest).0

unfoldable pub has_more : PathBuf → Bool
has_more s = not (length s.rest == 0)

-- the slashes that `skip_slashes` passes
unfoldable pub slashes : Bytes → Bytes
slashes [] = []
slashes (c ∷ cs) = if c == slash then c ∷ slashes cs else []

-- the iterator behind a name
unfoldable pub step_over : Bytes → (name : Bytes) → Option Bytes → PathBuf
unfolding skip_slashes slashes
step_over before name none = record { before = before ++ name; rest = [] }
step_over before name (some after) = record {
  before = before ++ name ++ 0 ∷ slashes after;
  rest = skip_slashes after;
}

-- `getNext`; `none` is NULL
unfoldable pub next_of : Bytes → Bytes → Option Bytes × PathBuf
unfolding take_name step_over
next_of before [] = (none, record { before = before; rest = [] })
next_of before (c ∷ cs) =
    let (name, after) = take_name (c ∷ cs) in (some name, step_over before name after)

unfoldable pub get_next : PathBuf → Option Bytes × PathBuf
unfolding next_of
get_next s = next_of s.before s.rest

-- The loop over `enditr`: the length of a text without the slashes at its end.
unfoldable pub trim_slashes : Bytes → Bytes
trim_slashes [] = []
trim_slashes (c ∷ cs) =
    let more = trim_slashes cs in if c == slash && length more == 0 then [] else c ∷ more

unfoldable pub enditr : PathBuf → ℕ
unfolding trim_slashes
enditr s = length (trim_slashes (s.before ++ s.rest))

-- the text at `itr` after the 0 has been written to `end`, which may lie before `itr`
unfoldable pub cut_at : (before rest : Bytes) → (end : ℕ) → Bytes
cut_at before rest end = if ltb end (length before) then rest else take (end - length before) rest

unfoldable pub cut_rest : PathBuf → Bytes
unfolding enditr cut_at
cut_rest s = cut_at s.before s.rest (enditr s)

-- the bytes before `itr`
unfoldable pub cut_before : PathBuf → Bytes
unfolding enditr
cut_before s = if ltb (enditr s) (length s.before) then set s.before (enditr s) 0 else s.before

unfoldable pub rest_text : PathBuf → Bytes × PathBuf
unfolding cut_rest cut_before
rest_text s = (cut_rest s, record { before = cut_before s; rest = cut_rest s })

-- `getRest` also moves `itr` to the old end
unfoldable pub get_rest : PathBuf → Bytes × PathBuf
unfolding cut_rest enditr
get_rest s = (cut_rest s, record { before = set (s.before ++ s.rest) (enditr s) 0; rest = [] })
