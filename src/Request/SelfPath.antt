-- ===== src/Request/SelfPath.antt =====
-- The test whether an address is one of this service: `pathToSelf` of
-- src/webrequest/webRequestHandler.cpp. A `memcmp` reads as far as the texts are equal.
use strus_bindings.Base.{
  ℕ, ◌==◌, Bool, true, false, ◌&&◌, ◌||◌, Option, none, some, List, [], ◌∷◌, ◌++◌, if◌then◌else◌,
  Bytes, codes, is_empty,
}
pub mod Addresses

-- what follows a text that the bytes start with
unfoldable pub drop_prefix : (prefix : Bytes) → Bytes → Option Bytes
drop_prefix [] cs = some cs
drop_prefix (p ∷ ps) [] = none
drop_prefix (p ∷ ps) (c ∷ cs) = if p == c then drop_prefix ps cs else none

-- the loop over the slashes
unfoldable pub pass_slashes : Bytes → Bytes
pass_slashes [] = []
pass_slashes (c ∷ cs) = if c == 47 then pass_slashes cs else c ∷ cs

unfoldable pub parse_path_delim : Bytes → Option Bytes
unfolding pass_slashes
parse_path_delim [] = some []
parse_path_delim (c ∷ cs) = if c == 47 then some (pass_slashes cs) else none

abbrev pub bind {ℓ κ} : {A : Type ℓ} {B : Type κ} → Option A → (A → Option B) → Option B
bind none f = none
bind (some a) f = f a

abbrev pub or_else {ℓ} : {A : Type ℓ} → Option A → Option A → Option A
or_else none b = b
or_else (some a) b = some a

-- the text behind `http:/` or `https:/` and the slashes, or the text itself
unfoldable pub behind_scheme : (http https : Option Bytes) → Bytes → Option Bytes
unfolding parse_path_delim
behind_scheme (some rest) https ai = parse_path_delim rest
behind_scheme none (some rest) ai = parse_path_delim rest
behind_scheme none none ai = some ai

unfoldable pub parse_local_host : Bytes → Option Bytes
unfolding drop_prefix behind_scheme
parse_local_host ai =
    bind (behind_scheme (drop_prefix (codes "http:/") ai) (drop_prefix (codes "https:/") ai) ai)
      (λ host.
        or_else (drop_prefix (codes "127.0.0.1") host) (drop_prefix (codes "localhost") host))

-- what a port of 80 is written as
unfoldable pub port_text : (port : Bytes) → Bytes
port_text [] = codes "80"
port_text (c ∷ cs) = c ∷ cs

unfoldable pub parse_port : Bytes → (port : Bytes) → Option Bytes
unfolding parse_path_delim drop_prefix port_text
parse_port [] port = if is_empty port then parse_path_delim [] else none
parse_port (c ∷ cs) port =
    if c == 47
    then if is_empty port then parse_path_delim (c ∷ cs) else none
    else if c == 58
    then bind (drop_prefix (port_text port) cs) parse_path_delim
    else none

-- `port` is empty for port 80
unfoldable pub path_to_self : (port address : Bytes) → Option Bytes
unfolding parse_local_host parse_port
path_to_self port address = bind (parse_local_host address) (λ ai. parse_port ai port)
