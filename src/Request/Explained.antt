-- ===== src/Request/Explained.antt =====
-- The answers of requests that fail: the object of a request
-- (src/webrequest/webRequestContext_obj.cpp).
pub mod Execute
pub mod Dispatch
pub mod Whole
use strus_bindings.Base.{
  ℕ, Bool, true, false, not, ◌&&◌, Option, none, some, List, [], ◌∷◌, ◌++◌, length, Bytes, codes,
  eq_bytes, if◌then◌else◌, Bool-cases, inl, inr,
}
use strus_bindings.Base.Action.{◌>>=◌, return, with_state, modify, Ends, Ends-bind, go_on}
use strus_bindings.Base.Result.{Result, ok, err}
use strus_bindings.Transaction.Pool.{Error, Transaction, Pool}
use strus_bindings.Transaction.Operations.{fetch_transaction}
use strus_bindings.WebRequest.ErrorCode.{PapugaError, ErrorCode, papuga_error_to_error_code}
use strus_bindings.WebRequest.PathBuf.{has_more, starts_with}
use strus_bindings.Request.State.{
  MethodId, Exception, Papuga, root_context_name, Request, Step, set_answer, fail, next_name,
  after_pool, of_pool, reset_transaction, reset_request_object,
}
use strus_bindings.Request.Object.{
  is_get, is_not_found, set_obj, resolved, open_transaction, fetch_by_name, transaction_named,
  init_transaction_object, take_variable, find_variable, select_object, inherited, inherit_from,
  create_context, inherit_in, clone_object, name_object, object_of_type, configured_of_type,
  init_configured_object, init_by_path, init_request_object,
}

abbrev pub HasError : Option ErrorCode → Type 0
HasError none = ⊥
HasError (some e) = Unit

module _ (p : Papuga) where
  open p use {Obj}

  -- What a request leaves when it returns: false comes with an error in the answer.
  abbrev pub Told : Bool → Request p → Type 0
  Told true s = Unit
  Told false s = HasError s.answer.error

  abbrev pub Any : Exception → Request p → Type 0
  Any e s = Unit

  abbrev pub Explains : Result Exception Bool × Request p → Type 0
  Explains = Ends Told Any

  abbrev pub Whatever : {A : Type 0} → A → Request p → Type 0
  Whatever a s = Unit

  pub any_end : {A : Type 0} (r : Result Exception A × Request p) → Ends Whatever Any r
  any_end (ok a, s) = tt
  any_end (err e, s) = tt

  -- an action whose result does not matter comes first
  pub after :
      {A : Type 0} (m : Step p A) (f : A → Step p Bool) (s : Request p)
      → ((a : A) (s : Request p) → Explains (f a s))
      → Explains (◌>>=◌ m f s)
  after m f s h = Ends-bind Whatever Told Any (m s) f (any_end (m s)) (λ a s1 _. h a s1)

  pub fail-Told : (e : ErrorCode) (s : Request p) → Explains (fail p e s)
  unfolding fail set_answer
  fail-Told e s = tt

  pub if-Told :
      (b : Bool) (m k : Step p Bool) (s : Request p)
      → Explains (m s)
      → Explains (k s)
      → Explains ((if b then m else k) s)
  if-Told true m k s h i = h
  if-Told false m k s h i = i

  resolved-Told : (o : Option Obj) (s : Request p) → Explains (resolved p o s)
  unfolding resolved
  resolved-Told none s = fail-Told ErrorCode.request_resolve_error s
  resolved-Told (some o) s = tt

  open_transaction-Told :
      (tr : Option (Transaction ℕ)) (s : Request p) → Explains (open_transaction p tr s)
  unfolding open_transaction set_obj
  open_transaction-Told none s = fail-Told ErrorCode.request_resolve_error s
  open_transaction-Told (some tr) s =
      resolved-Told (p.get_variable tr.context (codes "transaction") s.world) _

  fetch_by_name-Told : (name : Option Bytes) (s : Request p) → Explains (fetch_by_name p name s)
  unfolding fetch_by_name
  fetch_by_name-Told none s = fail-Told ErrorCode.incomplete_request s
  fetch_by_name-Told (some tid) s =
      after (of_pool p (fetch_transaction tid)) (open_transaction p) s open_transaction-Told

  init_transaction_object-Told : (s : Request p) → Explains (init_transaction_object p s)
  unfolding init_transaction_object transaction_named
  init_transaction_object-Told s =
      after (next_name p) (λ type. ◌>>=◌ (next_name p) (transaction_named p type)) s
        (λ type s1. after (next_name p) (transaction_named p type) s1 (λ name s2.
          fetch_by_name-Told name (record s2 { context_type = type; context_name = name })))

  take_variable-Told :
      (c : ℕ) (name : Option Bytes) (s : Request p) → Explains (take_variable p c name s)
  unfolding take_variable set_obj
  take_variable-Told c none s =
      after (reset_request_object p)
        (λ _. fail p (papuga_error_to_error_code PapugaError.logic_error)) s
        (λ _ s1. fail-Told (papuga_error_to_error_code PapugaError.logic_error) s1)
  take_variable-Told c (some name) s =
      if-Told (is_get s.method_id) (return true) (fail p ErrorCode.request_resolve_error)
        (set_obj p c name s).1 tt (fail-Told ErrorCode.request_resolve_error (set_obj p c name s).1)

  find_variable-Told :
      (c : ℕ) (type : Bytes) (vs : List Bytes) (s : Request p)
      → Explains (find_variable p c type vs s)
  unfolding find_variable set_obj
  find_variable-Told c type [] s = tt
  find_variable-Told c type (v ∷ vs) s =
      if-Told (starts_with v (length v) s.path) (◌>>=◌ (next_name p) (take_variable p c))
        (find_variable p c type vs) s
        (after (next_name p) (take_variable p c) s (take_variable-Told c))
        (find_variable-Told c type vs s)

  select_object-Told :
      (c : ℕ) (type : Bytes) (vars : Option (List Bytes)) (s : Request p)
      → Explains (select_object p c type vars s)
  unfolding select_object set_obj
  select_object-Told c type none s = fail-Told ErrorCode.buffer_overflow s
  select_object-Told c type (some vars) s =
      if-Told (has_more s.path && not (starts_with type (length type) s.path))
        (find_variable p c type vars) (◌>>=◌ (set_obj p c type) (λ _. return true)) s
        (find_variable-Told c type vars s) tt

  inherited-Told :
      (c : ℕ) (type : Bytes) (e : Option PapugaError) (s : Request p)
      → Explains (inherited p c type e s)
  unfolding inherited
  inherited-Told c type none s = select_object-Told c type (p.list_variables c s.world) s
  inherited-Told c type (some e) s =
      after (reset_request_object p)
        (λ _. if is_not_found e then return true else fail p (papuga_error_to_error_code e)) s
        (λ _ s1.
          if-Told (is_not_found e) (return true) (fail p (papuga_error_to_error_code e)) s1 tt
            (fail-Told (papuga_error_to_error_code e) s1))

  inherit_in-Told :
      (type name : Bytes) (c : Option ℕ) (s : Request p) → Explains (inherit_in p type name c s)
  unfolding inherit_in
  inherit_in-Told type name none s = fail-Told ErrorCode.out_of_mem s
  inherit_in-Told type name (some c) s =
      after (inherit_from p c type name) (inherited p c type) s (inherited-Told c type)

  name_object-Told :
      (type : Bytes) (name : Option Bytes) (s : Request p) → Explains (name_object p type name s)
  unfolding name_object clone_object
  name_object-Told type none s = tt
  name_object-Told type (some name) s =
      after (create_context p) (inherit_in p type name) (record s { context_name = some name })
        (inherit_in-Told type name)

  object_of_type-Told : (type : Option Bytes) (s : Request p) → Explains (object_of_type p type s)
  unfolding object_of_type
  object_of_type-Told none s = tt
  object_of_type-Told (some type) s =
      if-Told (eq_bytes type root_context_name) (name_object p type (some root_context_name))
        (◌>>=◌ (next_name p) (name_object p type)) s
        (name_object-Told type (some root_context_name) s)
        (after (next_name p) (name_object p type) s (name_object-Told type))

  init_configured_object-Told : (s : Request p) → Explains (init_configured_object p s)
  unfolding init_configured_object configured_of_type
  init_configured_object-Told s =
      after (next_name p) (configured_of_type p) s
        (λ type s1. object_of_type-Told type (record s1 { context_type = type }))

  init_by_path-Told : (s : Request p) → Explains (init_by_path p s)
  unfolding init_by_path
  init_by_path-Told s =
      if-Told (starts_with (codes "transaction") 11 s.path) (init_transaction_object p)
        (init_configured_object p) s (init_transaction_object-Told s)
        (init_configured_object-Told s)

  pub init_request_object-Told : (s : Request p) → Explains (init_request_object p s)
  unfolding init_request_object
  init_request_object-Told s =
      after (reset_request_object p) (λ _. init_by_path p) s (λ _ s1. init_by_path-Told s1)
