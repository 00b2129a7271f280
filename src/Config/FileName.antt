-- ===== src/Config/FileName.antt =====
-- The names of configuration files and the detection of their content type
-- (src/webrequest/configurationHandler.cpp).
use strus_bindings.Base.{
  ℕ, zero, suc, ◌+◌, ◌/◌, ◌%◌, Bool, Option, none, some, List, [], ◌∷◌, ◌++◌, ltb, ◌==◌,
  if◌then◌else◌, Bytes, codes,
}
use strus_bindings.WebRequest.Content.{ContentType, unknown, xml, json, skip_spaces}

-- `strchr(si, '.')`: what stands behind the dot, and what stands before it
unfoldable pub after_dot : Bytes → Option Bytes
after_dot [] = none
after_dot (c ∷ cs) = if c == b'.' then some cs else after_dot cs

unfoldable pub cons_some : ℕ → Option Bytes → Option Bytes
cons_some c none = none
cons_some c (some cs) = some (c ∷ cs)

unfoldable pub until_dot : Bytes → Option Bytes
unfolding cons_some
until_dot [] = none
until_dot (c ∷ cs) = if c == b'.' then some [] else cons_some c (until_dot cs)

unfoldable pub or_empty : Option Bytes → Bytes
or_empty none = []
or_empty (some cs) = cs

unfoldable pub on_some : (Bytes → Bytes) → Option Bytes → Bytes
on_some f none = []
on_some f (some cs) = f cs

-- `getConfigFilenamePart`
unfoldable pub get_config_filename_part : (pi : ℕ) → Bytes → Bytes
unfolding after_dot until_dot or_empty on_some
get_config_filename_part zero si = or_empty (until_dot si)
get_config_filename_part (suc pi) si = on_some (get_config_filename_part pi) (after_dot si)

unfoldable pub digits : (fuel : ℕ) → ℕ → Bytes
digits zero n = []
digits (suc fuel) n =
    let front = digits fuel (n / 10) in
    if ltb n 10 then (b'0' + n) ∷ [] else front ++ ((b'0' + n % 10) ∷ [])

-- `%d` of a number that is not negative; a number has at most as many digits as its successor says
unfoldable pub decimal : ℕ → Bytes
unfolding digits
decimal n = digits (suc n) n

-- `%03d`
unfoldable pub zeros : ℕ → Bytes
zeros n = if ltb n 10 then codes "00" else if ltb n 100 then codes "0" else []

unfoldable pub decimal3 : ℕ → Bytes
unfolding decimal zeros
decimal3 n = zeros n ++ decimal n

abbrev pub dotted : (front rest : Bytes) → Bytes
dotted front rest = front ++ (b'.' ∷ rest)

-- the format `%s_%s.%s.%s.%s.conf`
unfoldable pub config_filename : (timebuf idxbuf method type name : Bytes) → Bytes
config_filename timebuf idxbuf method type name =
    dotted (timebuf ++ (b'_' ∷ idxbuf)) (dotted method (dotted type (dotted name (codes "conf"))))

-- the format `.%s.%s.conf`
unfoldable pub config_extension : (type name : Bytes) → Bytes
config_extension type name = b'.' ∷ dotted type (dotted name (codes "conf"))

unfoldable pub first_content_type : Bytes → ContentType
first_content_type [] = unknown
first_content_type (c ∷ cs) = if c == b'<' then xml else if c == b'{' then json else unknown

unfoldable pub detect_content_type : Bytes → ContentType
unfolding skip_spaces first_content_type
detect_content_type content = first_content_type (skip_spaces content)

-- `greater` with `std::sort`: the names from the last to the first; equal names are the same
unfoldable pub insert_name : (lt : Bytes → Bytes → Bool) → Bytes → List Bytes → List Bytes
insert_name lt a [] = a ∷ []
insert_name lt a (b ∷ bs) = if lt a b then b ∷ insert_name lt a bs else a ∷ b ∷ bs

unfoldable pub sort_names : (lt : Bytes → Bytes → Bool) → List Bytes → List Bytes
unfolding insert_name
sort_names lt [] = []
sort_names lt (a ∷ as') = insert_name lt a (sort_names lt as')
