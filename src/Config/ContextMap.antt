-- ===== src/Config/ContextMap.antt =====
-- `ContextNameMap` (src/webrequest/configurationHandler.hpp): a `std::map` of pairs of a type and a
-- name to the flag of stored definitions, as the list of its entries in their order.
use strus_bindings.Base.{
  Bool, false, ◌&&◌, ◌||◌, Option, none, some, List, [], ◌∷◌, if◌then◌else◌, Bytes, eq_bytes,
  lt_bytes,
}

pub record ContextNameDef : Type 0 where
  pub context_type : Bytes
  pub context_name : Bytes

-- `ContextNameDef::operator<`
unfoldable pub lt_def : ContextNameDef → ContextNameDef → Bool
lt_def a b =
    if eq_bytes a.context_type b.context_type
    then lt_bytes a.context_name b.context_name
    else lt_bytes a.context_type b.context_type

unfoldable pub eq_def : ContextNameDef → ContextNameDef → Bool
eq_def a b = eq_bytes a.context_type b.context_type && eq_bytes a.context_name b.context_name

abbrev pub ContextNameMap : Type 0
ContextNameMap = List (ContextNameDef × Bool)

unfoldable pub find : ContextNameDef → ContextNameMap → Option Bool
unfolding eq_def
find k [] = none
find k ((l, v) ∷ m) = if eq_def k l then some v else find k m

-- `insert`, which leaves an entry that is there
unfoldable pub insert : ContextNameDef → Bool → ContextNameMap → ContextNameMap
unfolding lt_def eq_def
insert k v [] = (k, v) ∷ []
insert k v ((l, w) ∷ m) =
    if eq_def k l
    then (l, w) ∷ m
    else if lt_def k l
    then (k, v) ∷ (l, w) ∷ m
    else (l, w) ∷ insert k v m

unfoldable pub erase : ContextNameDef → ContextNameMap → ContextNameMap
unfolding eq_def
erase k [] = []
erase k ((l, w) ∷ m) = if eq_def k l then erase k m else (l, w) ∷ erase k m

-- `m[k] = v` for a key that is there
unfoldable pub assign : ContextNameDef → Bool → ContextNameMap → ContextNameMap
unfolding eq_def
assign k v [] = (k, v) ∷ []
assign k v ((l, w) ∷ m) = if eq_def k l then (l, v) ∷ m else (l, w) ∷ assign k v m

unfoldable pub upper_bound : ContextNameDef → ContextNameMap → ContextNameMap
unfolding lt_def
upper_bound k [] = []
upper_bound k ((l, w) ∷ m) = if lt_def k l then (l, w) ∷ m else upper_bound k m

-- the entries of a type at the start of the list: the loops over `ci->first.contextType`
unfoldable pub same_type : Bytes → ContextNameMap → ContextNameMap
same_type type [] = []
same_type type ((l, w) ∷ m) = if eq_bytes l.context_type type then (l, w) ∷ same_type type m else []

unfoldable pub stored_names : ContextNameMap → List Bytes
stored_names [] = []
stored_names ((l, w) ∷ m) = if w then l.context_name ∷ stored_names m else stored_names m

-- `contextNames`
unfoldable pub context_names : Bytes → ContextNameMap → List Bytes
unfolding upper_bound same_type stored_names
context_names type m =
    stored_names
      (same_type type (upper_bound (record { context_type = type; context_name = [] }) m))

unfoldable pub insert_type : Bytes → List Bytes → List Bytes
insert_type t [] = t ∷ []
insert_type t (u ∷ us) =
    if eq_bytes t u then u ∷ us else if lt_bytes t u then t ∷ u ∷ us else u ∷ insert_type t us

-- `contextTypes`, with the `std::set` it collects them in
unfoldable pub collect_types : (res : List Bytes) → ContextNameMap → List Bytes
unfolding insert_type
collect_types res [] = res
collect_types res ((l, w) ∷ m) =
    if w then collect_types (insert_type l.context_type res) m else collect_types res m

unfoldable pub context_types : ContextNameMap → List Bytes
unfolding collect_types
context_types m = collect_types [] m

unfoldable pub has_name : Bytes → ContextNameMap → Bool
has_name name [] = false
has_name name ((l, w) ∷ m) = eq_bytes l.context_name name || has_name name m
