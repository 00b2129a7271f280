-- ===== src/WebRequest/AcceptChoice.antt =====
-- The choice of a content type from the elements of a header: `findAccept` and `getResultContentType` of
-- src/webrequest/webRequestUtils.cpp.
use strus_bindings.Base.{
  Bool, true, false, ◌&&◌, ◌||◌, Option, none, some, List, [], ◌∷◌, if◌then◌else◌, Bytes, eq_bytes,
}
use strus_bindings.Base.Result.{Result, ok}
use strus_bindings.WebRequest.Content.{
  ContentType, unknown, type_mime, content_from_type_name, Fault, ◌>>=◌,
}
use strus_bindings.WebRequest.Accept.{Weights, AcceptElem, parse_accept}

-- a type that is not known leads to the next element
unfoldable pub or_next : (next : Result Fault ContentType) → ContentType → Result Fault ContentType
or_next next unknown = next
or_next next known = ok known

unfoldable pub is_known : ContentType → Bool
is_known unknown = false
is_known _ = true

module _ (ws : Weights) where
  unfoldable pub find_accept : List (AcceptElem ws) → (suggestion : Bytes) → Bool
  find_accept [] suggestion = false
  find_accept (e ∷ es) suggestion = eq_bytes suggestion e.type || find_accept es suggestion

  -- the first element with a known content type
  unfoldable pub first_known : List (AcceptElem ws) → Result Fault ContentType
  unfolding or_next
  first_known [] = ok unknown
  first_known (e ∷ es) = do
    doctype ← content_from_type_name e.type
    or_next (first_known es) doctype

  unfoldable pub choose_type :
      Option (List (AcceptElem ws)) → ContentType → Result Fault ContentType
  unfolding is_known
  choose_type none input = ok unknown
  choose_type (some es) input =
      if is_known input && find_accept es (type_mime input) then ok input else first_known es

  -- a header that is missing is the empty one
  unfoldable pub get_result_content_type : Bytes → ContentType → Result Fault ContentType
  get_result_content_type [] input = ok input
  get_result_content_type (c ∷ cs) input = choose_type (parse_accept ws false (c ∷ cs)) input
