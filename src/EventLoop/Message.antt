-- ===== src/EventLoop/Message.antt =====
-- A request to another service (src/webrequest/curlMessage.cpp): the address split in a URL and a
-- port, and the options of libcurl that the constructor of `CurlMessage` sets.
use strus_bindings.Base.Int.{ℤ, pos, negsuc}
use strus_bindings.Base.{
  ◌||◌, ℕ, zero, suc, ◌+◌, ◌-◌, ◌*◌, ◌==◌, Bool, ◌&&◌, Option, none, some, List, [], ◌∷◌, ◌++◌, map,
  if◌then◌else◌, leb, length, Bytes, codes, eq_bytes, is_empty,
}

-- from the first `:` on, as `std::strchr`
unfoldable pub strchr_colon : Bytes → Option Bytes
strchr_colon [] = none
strchr_colon (c ∷ cs) = if c == 58 then some (c ∷ cs) else strchr_colon cs

unfoldable pub before_colon : Bytes → Bytes
before_colon [] = []
before_colon (c ∷ cs) = if c == 58 then [] else c ∷ before_colon cs

unfoldable pub is_digit : ℕ → Bool
is_digit c = leb 48 c && leb c 57

unfoldable pub is_space : ℕ → Bool
is_space c = (c == 32) || (leb 9 c && leb c 13)

unfoldable pub skip_spaces : Bytes → Bytes
unfolding is_space
skip_spaces [] = []
skip_spaces (c ∷ cs) = if is_space c then skip_spaces cs else c ∷ cs

-- the value of the digits at the start
unfoldable pub digits_value : (value : ℕ) → Bytes → ℕ
unfolding is_digit
digits_value value [] = value
digits_value value (c ∷ cs) = if is_digit c then digits_value (10 * value + (c - 48)) cs else value

unfoldable pub negate : ℕ → ℤ
negate zero = pos 0
negate (suc n) = negsuc n

unfoldable pub signed_value : Bytes → ℤ
unfolding digits_value negate
signed_value [] = pos 0
signed_value (c ∷ cs) =
    if c == 45
    then negate (digits_value 0 cs)
    else if c == 43
    then pos (digits_value 0 cs)
    else pos (digits_value 0 (c ∷ cs))

-- `atoi` where the value is one of `int`
unfoldable pub atoi : Bytes → ℤ
unfolding skip_spaces signed_value
atoi cs = signed_value (skip_spaces cs)

unfoldable pub skip_digits : Bytes → Bytes
unfolding is_digit
skip_digits [] = []
skip_digits (c ∷ cs) = if is_digit c then skip_digits cs else c ∷ cs

-- What stands before the `:` of the port, and what follows it, if there is one: a `:` followed
-- by `/` is the one of the scheme, and the next one is taken.
unfoldable pub split_scheme : (head : Bytes) → Option Bytes → Option (Bytes × Bytes)
unfolding strchr_colon before_colon
split_scheme head none = none
split_scheme head (some []) = none
split_scheme head (some (c ∷ [])) = some (head, [])
split_scheme head (some (c ∷ d ∷ cs)) =
    if d == 47
    then elim (strchr_colon (d ∷ cs)) [
      | none ↦ none
      | some [] ↦ none
      | some (e ∷ es) ↦ some (head ++ (c ∷ before_colon (d ∷ cs)), es)
    ]
    else some (head, d ∷ cs)

unfoldable pub split_port : (address : Bytes) → Option (Bytes × Bytes)
unfolding split_scheme
split_port address = split_scheme (before_colon address) (strchr_colon address)

unfoldable pub get_port : (address : Bytes) → ℤ
unfolding split_port atoi
get_port address = elim (split_port address) [ none ↦ pos 0 | some p ↦ atoi p.1 ]

unfoldable pub get_url : (address : Bytes) → Bytes
unfolding split_port skip_digits
get_url address = elim (split_port address) [ none ↦ address | some p ↦ p.0 ++ skip_digits p.1 ]

unfoldable pub toupper : ℕ → ℕ
toupper c = if leb 97 c && leb c 122 then c - 32 else c

-- The options of libcurl that the source sets.
pub data CurlOption : Type 0 where
  httpget post failonerror verbose : ℕ → CurlOption
  customrequest postfields url : Bytes → CurlOption
  postfieldsize : ℕ → CurlOption
  port : ℤ → CurlOption
  useragent httpheader errorbuffer http_version_1_1 writedata writefunction stderr : CurlOption

pub record CurlMessage : Type 0 where
  pub handle : ℕ
  pub method : Bytes
  pub message_url : Bytes
  pub message_port : ℤ
  pub content : Bytes

unfoldable pub method_options : CurlMessage → List CurlOption
method_options m =
    if is_empty m.content && eq_bytes m.method (codes "GET")
    then httpget 1 ∷ []
    else customrequest m.method
      ∷ post 1
      ∷ postfieldsize (length m.content)
      ∷ postfields m.content
      ∷ []

unfoldable pub port_options : ℤ → List CurlOption
port_options (pos zero) = []
port_options (pos (suc p)) = port (pos (suc p)) ∷ []
port_options (negsuc p) = port (negsuc p) ∷ []

-- what the constructor sets, in its order, before the options for the log
unfoldable pub message_options : CurlMessage → List CurlOption
unfolding method_options port_options
message_options m =
    method_options m
    ++ (useragent
        ∷ httpheader
        ∷ failonerror 0
        ∷ errorbuffer
        ∷ http_version_1_1
        ∷ url m.message_url
        ∷ [])
    ++ port_options m.message_port
    ++ (writedata ∷ writefunction ∷ [])

unfoldable pub new_message : (handle : ℕ) → (address method content : Bytes) → CurlMessage
unfolding get_url get_port toupper
new_message handle address method content = record {
  handle = handle;
  method = map toupper method;
  message_url = get_url address;
  message_port = get_port address;
  content = content;
}
