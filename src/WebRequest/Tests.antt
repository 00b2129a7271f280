-- ===== src/WebRequest/Tests.antt =====
-- Headers, names and paths of requests (src/webrequest/webRequestUtils.cpp, src/webrequest/pathBuf.hpp)
-- on concrete inputs.
use strus_bindings.Base.{
  ℕ, ◌-◌, ◌≤◌, ◌≡◌, ◌≢◌, ◌↔◌, refl, true, false, ◌&&◌, Option, none, some, List, [], ◌∷◌, ◌++◌, ◌⊎◌,
  ltb, ◌==◌, if◌then◌else◌, Bytes, codes, eq_bytes, length, arith,
}
use strus_bindings.Base.Result.{ok}
use strus_bindings.WebRequest.Content.{
  unknown, xml, json, html, type_mime, content_from_type_name, skip_spaces, push_char, parse_ident,
  parse_token, close_word, is_letter, is_token_char, or_32, scan_while,
}
use strus_bindings.WebRequest.TypeNames.{content_from_type_name-suffix}
use strus_bindings.WebRequest.ErrorCode.{
  PapugaError, papuga_error_to_error_code, error_code_to_http_status, papuga_error_status,
}
use strus_bindings.WebRequest.Accept.{
  Weights, AcceptElem, parse_accept, or_null, scan_accept, sorted, groups, group, items, next_item,
  end_round, separator, after_items, parameters, parse_assignment, assign_parameter, assign,
  assign_weight, assigned, assigned_ident, with_key, set_weights, drop_char, before, insert_elem,
  sort_elems, prefix_text, optional_prefix, push_all, take_item, is_item_end, to_lower, to_upper,
}
use strus_bindings.WebRequest.AcceptChoice.{
  find_accept, first_known, or_next, is_known, choose_type, get_result_content_type,
}
use strus_bindings.WebRequest.AcceptOrder.{IsStrictWeak, Sorts, parse_accept-IsSorted}
use strus_bindings.WebRequest.AcceptTermination.{groups_end}
use strus_bindings.WebRequest.Scanning.{Ensures}
use strus_bindings.WebRequest.Rounds.{Fits}
use strus_bindings.WebRequest.Choice.{IsBest, get_result_content_type-IsBest}
use strus_bindings.Base.Int.{pos}
use strus_bindings.WebRequest.ByteOrder.{has_byte_order, get_result_string_encoding-has_byte_order}
use strus_bindings.WebRequest.Encoding.{
  StringEncoding, other_encoding, utf16be, utf16, Encodings, get_result_string_encoding,
  is_continuation, content_tostring,
}
use strus_bindings.WebRequest.Truncation.{content_tostring-lead}
use strus_bindings.WebRequest.PathBuf.{
  PathBuf, new_path, get_next, get_rest, rest_text, starts_with, has_more,
}
use strus_bindings.WebRequest.PathBuf.Names.{names, read_names, read_names-new_path}
use strus_bindings.WebRequest.PathBuf.Rest.{Trimmed, get_rest-trims, starts_with_iff}

-- weights with one decimal
abbrev tenths : Bytes → Option ℕ
tenths (a ∷ b ∷ c ∷ []) = if a == b'0' && b == b'.' then some (c - b'0') else none
tenths (a ∷ []) = if a == b'1' then some 10 else none
tenths cs = none

abbrev weights : Weights
weights = record { Weight = ℕ; greater = λ a b. ltb b a; default = 10; from_string = tenths }

weights_order : IsStrictWeak weights
weights_order = record {
  asymmetric = λ a b h. ground arith;
  transitive = λ a b c h k. ground arith;
  incomparable = λ a b c h k. ground arith;
}

abbrev header : Bytes
header = codes "text/xml;q=0.8,text/html"

abbrev parsed : List (AcceptElem weights)
parsed =
    record { weight = 10; type = codes "text/html"; position = 9 }
    ∷ record { weight = 8; type = codes "text/xml"; position = 0 }
    ∷ []

header_read : parse_accept weights false header ≡ some parsed
unfolding parse_accept or_null scan_accept sorted groups group items next_item end_round separator
    after_items parameters parse_assignment assign_parameter assign assign_weight assigned
    assigned_ident with_key set_weights drop_char before insert_elem sort_elems prefix_text
    optional_prefix push_all take_item is_item_end to_lower to_upper skip_spaces push_char
    parse_ident parse_token close_word is_letter is_token_char or_32 scan_while eq_bytes
header_read = refl

header_choice : get_result_content_type weights header json ≡ ok html
unfolding get_result_content_type choose_type first_known or_next is_known find_accept type_mime
    content_from_type_name eq_bytes
header_choice = rw header_read refl

parse_accept-IsSorted_example : Sorts weights weights_order false header parsed
parse_accept-IsSorted_example =
    parse_accept-IsSorted weights weights_order false header parsed header_read

groups_end_example :
    Ensures
      (Fits weights)
      (groups weights (length header) false (record { rest = header; strbufpos = 0; elems = [] }))
groups_end_example = groups_end weights false header

html_known : html ≢ unknown
html_known h = ground arith

get_result_content_type-IsBest_example :
    ((html ≡ json) × (find_accept weights parsed (type_mime json) ≡ true))
    ⊎ ((e : AcceptElem weights) × IsBest weights html parsed e)
get_result_content_type-IsBest_example =
    get_result_content_type-IsBest weights weights_order b't' (codes "ext/xml;q=0.8,text/html") json
      html parsed header_read header_choice html_known

abbrev strange : List (AcceptElem weights)
strange = record { weight = 10; type = codes "a/b"; position = 0 } ∷ []

strange_parsed : parse_accept weights false (codes "a/b") ≡ some strange
unfolding parse_accept or_null scan_accept sorted groups group items next_item end_round separator
    after_items parameters parse_assignment assign_parameter assign assign_weight assigned
    assigned_ident with_key set_weights drop_char before insert_elem sort_elems prefix_text
    optional_prefix push_all take_item is_item_end to_lower to_upper skip_spaces push_char
    parse_ident parse_token close_word is_letter is_token_char or_32 scan_while eq_bytes
strange_parsed = refl

strange_choice : get_result_content_type weights (codes "a/b") xml ≡ ok unknown
unfolding get_result_content_type choose_type first_known or_next is_known find_accept type_mime
    content_from_type_name eq_bytes
strange_choice = rw strange_parsed refl

semicolon : is_letter b';' ≡ false
unfolding is_letter
semicolon = refl

content_from_type_name-suffix_example :
    content_from_type_name (type_mime json ++ b';' ∷ codes " charset=utf-8") ≡ ok json
content_from_type_name-suffix_example =
    content_from_type_name-suffix json b';' (codes " charset=utf-8") semicolon

named : (n : ℕ) → PapugaError.syntax_error ≢ PapugaError.other_papuga n
named n h = ground arith

papuga_error_status_example :
    ((PapugaError.syntax_error ≡ PapugaError.ok)
      × (error_code_to_http_status (papuga_error_to_error_code PapugaError.syntax_error) ≡ 200))
    ⊎ ((PapugaError.syntax_error ≢ PapugaError.ok)
        × (400 ≤ error_code_to_http_status (papuga_error_to_error_code PapugaError.syntax_error))
        × (error_code_to_http_status (papuga_error_to_error_code PapugaError.syntax_error) ≤ 503))
papuga_error_status_example = papuga_error_status PapugaError.syntax_error named

abbrev path : PathBuf
path = record { before = []; rest = codes "storage//main/" }

path_fits : new_path (codes "/storage//main/") ≡ some path
unfolding new_path
path_fits = refl

read_names-new_path_example : read_names 15 path ≡ names (codes "/storage//main/")
read_names-new_path_example = read_names-new_path (codes "/storage//main/") path path_fits

path_names : names (codes "/storage//main/") ≡ codes "storage" ∷ codes "main" ∷ []
unfolding names
path_names = refl

get_rest-trims_example :
    Trimmed (get_rest path).0 (codes "storage//main/")
    × ((rest_text path).0 ≡ (get_rest path).0)
    × (has_more (get_rest path).1 ≡ false)
get_rest-trims_example = get_rest-trims path refl

path_more : has_more path ≡ true
unfolding has_more
path_more = refl

starts_with_iff_example :
    (starts_with (codes "storage") 7 path ≡ true) ↔ ((get_next path).0 ≡ some (codes "storage"))
starts_with_iff_example = starts_with_iff (codes "storage") path refl path_more

-- the first byte of a character of two bytes
lead : is_continuation 195 ≡ false
unfolding is_continuation
lead = refl

second : is_continuation 169 ≡ true
unfolding is_continuation
second = refl

content_tostring-lead_example :
    content_tostring (codes "a" ++ (195 ∷ 169 ∷ [])) (pos 2) ≡ codes "a" ++ (195 ∷ [])
content_tostring-lead_example =
    content_tostring-lead (codes "a") 195 (169 ∷ []) 0 lead (second, tt) (omega arith)

abbrev encoding_name : StringEncoding → Bytes
encoding_name (other_encoding n) = codes "UTF-8"
encoding_name utf16 = codes "UTF-16"
encoding_name e = codes "other"

abbrev encoding_of : Bytes → Option StringEncoding
encoding_of name =
    if eq_bytes name (codes "UTF-8")
    then some (other_encoding 0)
    else if eq_bytes name (codes "UTF-16")
    then some utf16
    else none

abbrev encodings : Encodings
encodings = record {
  from_name = encoding_of;
  name_of = encoding_name;
  guess = λ content. other_encoding 0;
}

get_result_string_encoding-has_byte_order_example :
    has_byte_order (get_result_string_encoding weights encodings (codes "utf-16") utf16be) ≡ true
get_result_string_encoding-has_byte_order_example =
    get_result_string_encoding-has_byte_order weights encodings b'u' (codes "tf-16") utf16be
