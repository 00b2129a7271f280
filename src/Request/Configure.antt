-- ===== src/Request/Configure.antt =====
-- The requests for configurations: src/webrequest/webRequestContext_config.cpp, with
-- `initEmptyObject` and `initRootObject` (src/webrequest/webRequestContext_obj.cpp) and the names of
-- their schemas (src/webrequest/webRequestContext_schema.cpp).
pub mod Removal
pub mod Pending
pub mod Answers
pub mod Deletes
use strus_bindings.Base.{
  ℕ, Bool, true, false, not, is_empty, ◌||◌, ◌&&◌, Option, none, some, List, [], ◌∷◌, ◌++◌,
  if◌then◌else◌, take, Bytes, codes, eq_bytes,
}
use strus_bindings.Base.Action.{◌>>=◌, return, throw, with_state, modify}
use strus_bindings.Base.Result.{Result, ok, err}
use strus_bindings.Config.Handler.{
  FileSystem, ConfigurationDescription, describe, ConfigurationTransaction, Failure, failed,
}
use strus_bindings.Config.Storage.{
  World, Op, store_configuration, store_configuration_replace, get_stored_configuration_file,
  get_stored_configuration_from_file, delete_stored_configuration,
}
use strus_bindings.WebRequest.ErrorCode.{PapugaError, ErrorCode, papuga_error_to_error_code}
use strus_bindings.Request.State.{
  interrupted_load_configuration_request, MethodId, put, post, delete, method_id_name, Exception,
  bad_alloc, runtime_error, no_behaviour, Papuga, root_context_name, Request, Step, fail,
  set_http_status, reset_transaction,
}
use strus_bindings.Request.Execute.{Handlers}
use strus_bindings.Request.Object.{create_context, inherit_from}

unfoldable pub failure_to_exception : Failure → Exception
failure_to_exception Failure.bad_alloc = bad_alloc
failure_to_exception Failure.undefined = no_behaviour
failure_to_exception (failed ec) = runtime_error

unfoldable pub is_put_or_post : MethodId → Bool
is_put_or_post put = true
is_put_or_post post = true
is_put_or_post m = false

unfoldable pub is_delete : MethodId → Bool
is_delete delete = true
is_delete m = false

abbrev pub SchemaId : Type 0
SchemaId = Bytes × Bytes

-- `getSchemaId` for the type of the request: a schema of the root context if the root element of the
-- content is the type
unfoldable pub get_schema_id : (type : Bytes) → MethodId → (root_element : Bytes) → SchemaId
unfolding is_put_or_post is_delete method_id_name
get_schema_id type m root =
    if is_delete m || is_put_or_post m && eq_bytes type root
    then (root_context_name, method_id_name m ++ (47 ∷ type))
    else (type, method_id_name m)

module _ (p : Papuga) (fs : FileSystem) where
  open p use {Content}

  -- What papuga, the handler and the contents of requests are to these requests. The store of files
  -- is a part of what is outside.
  pub record Schemas : Type 0 where
    pub store_of : p.World → fs.Store
    pub put_store : fs.Store → p.World → p.World
    pub timebuf : Bytes
    pub root_element : p.World → Bytes
    pub has_automaton : SchemaId → p.World → Bool
    pub has_exclusive_access : p.World → Bool
    pub set_automaton : SchemaId → p.World → p.World
    pub content_text : Content → Bytes
    pub to_content : ConfigurationDescription → Content
    pub init_content_type : Content → Step p Bool
    pub execute_content_schema_automaton : Content → Step p Bool
    pub remove_context : (type name : Bytes) → Step p Bool

  -- `if (!...) return false`, for one action after the other
  unfoldable pub all_true : List (Step p Bool) → Step p Bool
  all_true [] = return true
  all_true (m ∷ ms) = ◌>>=◌ m (λ b. if b then all_true ms else return false)

  -- a pointer that is read
  unfoldable pub read_text : Option Bytes → (Bytes → Step p Bool) → Step p Bool
  read_text none f = throw no_behaviour
  read_text (some t) f = f t

  unfoldable pub created : Option ℕ → Step p Bool
  unfolding fail
  created none = fail p ErrorCode.out_of_mem
  created (some c) = return true

  unfoldable pub init_empty_object : Step p Bool
  unfolding reset_transaction create_context created
  init_empty_object = do
    _ ← reset_transaction p
    c ← create_context p
    _ ← modify (λ s. record s { obj = none })
    created c

  unfoldable pub root_inherited : Option PapugaError → Step p Bool
  unfolding fail
  root_inherited none = return true
  root_inherited (some e) = fail p (papuga_error_to_error_code e)

  unfoldable pub inherit_root : Option ℕ → Step p Bool
  unfolding inherit_from root_inherited
  inherit_root none = throw no_behaviour
  inherit_root (some c) =
      ◌>>=◌ (inherit_from p c root_context_name root_context_name) root_inherited

  unfoldable pub init_root_object : Step p Bool
  unfolding all_true init_empty_object inherit_root
  init_root_object = all_true (init_empty_object ∷ with_state (λ s. inherit_root s.context) ∷ [])

  module _ (c : Schemas) where
    unfoldable pub after_store : {A : Type 0} → Result Failure A × World fs → Step p A
    unfolding failure_to_exception
    after_store (ok a, w) s =
        (ok a, record s { config = w.handler; world = c.put_store w.store s.world })
    after_store (err e, w) s = (
      err (failure_to_exception e),
      record s { config = w.handler; world = c.put_store w.store s.world },
    )

    unfoldable pub on_store : {A : Type 0} → Op fs A → Step p A
    unfolding after_store
    on_store f s = after_store (f (record { handler = s.config; store = c.store_of s.world })) s

    unfoldable pub use_automaton : SchemaId → (found : Bool) → Step p Bool
    unfolding fail
    use_automaton id false s = fail p ErrorCode.request_resolve_error s
    use_automaton id true s = (ok true, record s { world = c.set_automaton id s.world })

    unfoldable pub init_content_schema_automaton : SchemaId → Step p Bool
    unfolding use_automaton
    init_content_schema_automaton id =
        with_state (λ s. use_automaton id (c.has_automaton id s.world))

    unfoldable pub store_op :
        (update : Bool) → ConfigurationDescription → Op fs ConfigurationTransaction
    store_op true d = store_configuration_replace fs c.timebuf d
    store_op false d = store_configuration fs c.timebuf d

    unfoldable pub store_description : (update : Bool) → ConfigurationDescription → Step p Bool
    unfolding on_store store_op
    store_description update d = do
      t ← on_store (store_op update d)
      _ ← modify (λ s. record s { config_transaction = some t })
      return true

    unfoldable pub store_named : Content → (update : Bool) → (type name : Bytes) → Step p Bool
    unfolding store_description method_id_name
    store_named x update type name = with_state (λ s.
        store_description update
          (describe type name (method_id_name s.method_id) (c.content_text x)))

    unfoldable pub init_typed : Content → (update : Bool) → (type : Bytes) → Step p Bool
    unfolding fail read_text store_named
    init_typed x update type =
        if eq_bytes type root_context_name
        then fail p ErrorCode.invalid_request
        else with_state (λ s. read_text s.context_name (store_named x update type))

    unfoldable pub init_configuration_request : Content → (update : Bool) → Step p Bool
    unfolding read_text init_typed
    init_configuration_request x update =
        with_state (λ s. read_text s.context_type (init_typed x update))

    unfoldable pub load_schema : Content → SchemaId → Step p Bool
    unfolding all_true init_root_object init_content_schema_automaton
    load_schema x id = all_true (
        init_root_object
        ∷ init_content_schema_automaton id
        ∷ c.execute_content_schema_automaton x
        ∷ [])

    unfoldable pub load_content : Content → Step p Bool
    unfolding read_text load_schema get_schema_id
    load_content x = with_state (λ s.
        read_text s.context_type
          (λ type. load_schema x (get_schema_id type s.method_id (c.root_element s.world))))

    unfoldable pub load_configuration_request : Content → Step p Bool
    unfolding all_true init_configuration_request load_content
    load_configuration_request x =
        all_true (init_configuration_request x false ∷ load_content x ∷ [])

    unfoldable pub run_exclusive : Content → (exclusive : Bool) → Step p Bool
    unfolding fail
    run_exclusive x false = c.execute_content_schema_automaton x
    run_exclusive x true = do
      _ ← modify (λ s. record s { request_type = interrupted_load_configuration_request })
      fail p ErrorCode.service_need_exclusive_access

    unfoldable pub update_content : Content → (has_update : Bool) → SchemaId → Step p Bool
    unfolding all_true init_content_schema_automaton run_exclusive load_content
    update_content x false id = load_content x
    update_content x true id = all_true (
        init_content_schema_automaton id
        ∷ with_state (λ s. run_exclusive x (c.has_exclusive_access s.world))
        ∷ [])

    unfoldable pub update_loaded : Content → Step p Bool
    unfolding read_text update_content
    update_loaded x = with_state (λ s. read_text s.context_type (λ type.
        update_content x (c.has_automaton (type, codes "PUT") s.world) (type, codes "PUT")))

    unfoldable pub update_configuration_request : Content → Step p Bool
    unfolding all_true init_configuration_request update_loaded
    update_configuration_request x =
        all_true (init_configuration_request x true ∷ update_loaded x ∷ [])

    unfoldable pub update_configuration_request_retry : Content → Step p Bool
    update_configuration_request_retry x = c.execute_content_schema_automaton x

    unfoldable pub load_main_configuration : Content → Step p Bool
    unfolding all_true init_empty_object init_content_schema_automaton
    load_main_configuration x = all_true (
        init_empty_object
        ∷ init_content_schema_automaton ([], root_context_name)
        ∷ c.execute_content_schema_automaton x
        ∷ [])

    unfoldable pub embedded_automaton : (type : Bytes) → Step p Bool
    unfolding init_content_schema_automaton get_schema_id
    embedded_automaton type = init_content_schema_automaton (get_schema_id type put type)

    unfoldable pub load_embedded_configuration : Content → Step p Bool
    unfolding all_true init_root_object read_text embedded_automaton
    load_embedded_configuration x = all_true (
        init_root_object
        ∷ with_state (λ s. read_text s.context_type embedded_automaton)
        ∷ c.execute_content_schema_automaton x
        ∷ [])
