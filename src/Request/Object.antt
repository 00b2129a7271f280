-- ===== src/Request/Object.antt =====
-- The object that a request is about: src/webrequest/webRequestContext_obj.cpp.
use strus_bindings.Base.{
  ℕ, Bool, true, false, not, ◌&&◌, Option, none, some, List, [], ◌∷◌, if◌then◌else◌, length, Bytes,
  codes, eq_bytes,
}
use strus_bindings.Base.Action.{◌>>=◌, return, with_state, modify}
use strus_bindings.Base.Result.{ok}
use strus_bindings.Transaction.Pool.{Transaction}
use strus_bindings.Transaction.Operations.{fetch_transaction}
use strus_bindings.WebRequest.ErrorCode.{PapugaError, ErrorCode, papuga_error_to_error_code}
use strus_bindings.WebRequest.PathBuf.{has_more, starts_with}
use strus_bindings.Request.State.{
  MethodId, get, Papuga, root_context_name, Step, fail, next_name, of_pool, reset_request_object,
}

unfoldable pub is_get : MethodId → Bool
is_get get = true
is_get m = false

unfoldable pub is_not_found : PapugaError → Bool
is_not_found PapugaError.addressed_item_not_found = true
is_not_found e = false

module _ (p : Papuga) where
  open p use {Obj, Content}

  -- `m_obj = papuga_RequestContext_get_variable(...)`, with whether there is one
  unfoldable pub set_obj : (context : ℕ) → (name : Bytes) → Step p Unit
  set_obj c name s = (ok tt, record s { obj = p.get_variable c name s.world })

  unfoldable pub resolved : Option Obj → Step p Bool
  unfolding fail
  resolved none = fail p ErrorCode.request_resolve_error
  resolved (some o) = return true

  unfoldable pub open_transaction : Option (Transaction ℕ) → Step p Bool
  unfolding fail set_obj resolved
  open_transaction none = fail p ErrorCode.request_resolve_error
  open_transaction (some tr) = do
    _ ← modify (λ s. record s {
      transaction_ref = some tr;
      context_type = some tr.context_type;
      context = some tr.context;
    })
    _ ← set_obj tr.context (codes "transaction")
    with_state (λ s. resolved s.obj)

  unfoldable pub fetch_by_name : Option Bytes → Step p Bool
  unfolding fail of_pool open_transaction
  fetch_by_name none = fail p ErrorCode.incomplete_request
  fetch_by_name (some tid) = do tr ← of_pool p (fetch_transaction tid); open_transaction tr

  unfoldable pub transaction_named : (type name : Option Bytes) → Step p Bool
  unfolding fetch_by_name
  transaction_named type name = do
    _ ← modify (λ s. record s { context_type = type; context_name = name })
    fetch_by_name name

  unfoldable pub init_transaction_object : Step p Bool
  unfolding next_name transaction_named
  init_transaction_object = do type ← next_name p; name ← next_name p; transaction_named type name

  unfoldable pub take_variable : (context : ℕ) → Option Bytes → Step p Bool
  unfolding reset_request_object fail set_obj is_get
  take_variable c none = do
    _ ← reset_request_object p
    fail p (papuga_error_to_error_code PapugaError.logic_error)
  take_variable c (some name) = do
    _ ← set_obj c name
    with_state
        (λ s. if is_get s.method_id then return true else fail p ErrorCode.request_resolve_error)

  -- the loop over the variables, where the path is not one of them at its end
  unfoldable pub find_variable : (context : ℕ) → (type : Bytes) → List Bytes → Step p Bool
  unfolding next_name take_variable set_obj
  find_variable c type [] = do _ ← set_obj c type; return true
  find_variable c type (v ∷ vs) = with_state (λ s.
      if starts_with v (length v) s.path
      then ◌>>=◌ (next_name p) (take_variable c)
      else find_variable c type vs)

  unfoldable pub select_object : (context : ℕ) → (type : Bytes) → Option (List Bytes) → Step p Bool
  unfolding find_variable set_obj fail
  select_object c type none = fail p ErrorCode.buffer_overflow
  select_object c type (some vars) = with_state (λ s.
      if has_more s.path && not (starts_with type (length type) s.path)
      then find_variable c type vars
      else ◌>>=◌ (set_obj c type) (λ _. return true))

  unfoldable pub inherited : (context : ℕ) → (type : Bytes) → Option PapugaError → Step p Bool
  unfolding select_object reset_request_object is_not_found fail
  inherited c type none = with_state (λ s. select_object c type (p.list_variables c s.world))
  inherited c type (some e) = do
    _ ← reset_request_object p
    if is_not_found e then return true else fail p (papuga_error_to_error_code e)

  unfoldable pub inherit_from : (context : ℕ) → (type name : Bytes) → Step p (Option PapugaError)
  inherit_from c type name s =
      (ok (p.inherit c type name s.world).0, record s { world = (p.inherit c type name s.world).1 })

  unfoldable pub create_context : Step p (Option ℕ)
  create_context s = (
    ok (p.create s.world).0,
    record s { world = (p.create s.world).1; context = (p.create s.world).0 },
  )

  unfoldable pub inherit_in : (type name : Bytes) → Option ℕ → Step p Bool
  unfolding inherit_from inherited fail
  inherit_in type name none = fail p ErrorCode.out_of_mem
  inherit_in type name (some c) = do e ← inherit_from c type name; inherited c type e

  unfoldable pub clone_object : (type : Bytes) → (name : Option Bytes) → Step p Bool
  unfolding create_context inherit_in
  clone_object type none = return true
  clone_object type (some name) = do c ← create_context; inherit_in type name c

  unfoldable pub name_object : (type : Bytes) → (name : Option Bytes) → Step p Bool
  unfolding clone_object
  name_object type name = do
    _ ← modify (λ s. record s { context_name = name })
    clone_object type name

  unfoldable pub object_of_type : Option Bytes → Step p Bool
  unfolding next_name name_object
  object_of_type none = return true
  object_of_type (some type) =
      if eq_bytes type root_context_name
      then name_object type (some root_context_name)
      else ◌>>=◌ (next_name p) (name_object type)

  unfoldable pub configured_of_type : Option Bytes → Step p Bool
  unfolding object_of_type
  configured_of_type type = do
    _ ← modify (λ s. record s { context_type = type })
    object_of_type type

  unfoldable pub init_configured_object : Step p Bool
  unfolding next_name configured_of_type
  init_configured_object = do type ← next_name p; configured_of_type type

  unfoldable pub init_by_path : Step p Bool
  unfolding init_transaction_object init_configured_object
  init_by_path = with_state (λ s.
      if starts_with (codes "transaction") 11 s.path
      then init_transaction_object
      else init_configured_object)

  unfoldable pub init_request_object : Step p Bool
  unfolding reset_request_object init_by_path
  init_request_object = do _ ← reset_request_object p; init_by_path

  unfoldable pub name_schema : Option Bytes → Step p Bool
  name_schema none s = (ok false, record s { context_name = none })
  name_schema (some name) s = (ok true, record s { context_name = some name })

  -- the root context has no schema description
  unfoldable pub schema_of_type : Option Bytes → Step p Bool
  unfolding next_name name_schema
  schema_of_type none = return true
  schema_of_type (some type) =
      if eq_bytes type root_context_name
      then (do _ ← modify (λ s. record s { context_name = some root_context_name }); return false)
      else ◌>>=◌ (next_name p) name_schema

  unfoldable pub type_schema : Option Bytes → Step p Bool
  unfolding schema_of_type
  type_schema type = do _ ← modify (λ s. record s { context_type = type }); schema_of_type type

  unfoldable pub init_schema_description_object : Step p Bool
  unfolding next_name type_schema
  init_schema_description_object = ◌>>=◌ (next_name p) type_schema
