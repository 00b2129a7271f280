-- ===== src/Request/Execute.antt =====
-- `executeObjectRequest`, `execute` and `complete` of src/webrequest/webRequestContext.cpp.
use strus_bindings.Base.{
  ℕ, Bool, true, false, not, Option, none, some, List, [], ◌∷◌, ◌++◌, if◌then◌else◌, Bytes, codes,
  eq_bytes, is_empty,
}
use strus_bindings.Base.Action.{◌>>=◌, return, throw, with_state, modify, catch}
use strus_bindings.Base.Result.{Result, ok, err}
use strus_bindings.Config.ContextMap.{context_names, context_types}
use strus_bindings.Config.Handler.{
  Handler, Failure, alloc_temporary_context_name, release_temporary_context_name,
}
use strus_bindings.Transaction.Pool.{Transaction}
use strus_bindings.WebRequest.ErrorCode.{ErrorCode}
use strus_bindings.WebRequest.PathBuf.{has_more, rest_text, get_rest}
use strus_bindings.Request.State.{
  MethodId, get, put, post, patch, delete, method_id_name, Exception, bad_alloc, runtime_error,
  uncaught, no_behaviour, Papuga, root_context_name, Request, Step, fail, set_http_status,
  reset_transaction, reset_request_object,
}
use strus_bindings.Request.Transact.{Calls, execute_post_transaction, execute_commit_transaction}

unfoldable pub is_ok : Option ErrorCode → Bool
is_ok none = true
is_ok (some e) = false

module _ (p : Papuga) where
  open p use {Obj, Method, Content}

  -- The parts of a request that run the schemas and print the answers, and the requests for
  -- configurations, as actions on the request.
  pub record Handlers : Type 0 where
    pub load_configuration_request : Content → Step p Bool
    pub update_configuration_request : Content → Step p Bool
    pub update_configuration_request_retry : Content → Step p Bool
    pub delete_configuration_request : Step p Bool
    pub load_main_configuration : Content → Step p Bool
    pub load_embedded_configuration : Content → Step p Bool
    pub init_content_type : Content → Step p Bool
    pub execute_schema_description : Step p Bool
    pub execute_options : Step p Bool
    pub execute_schema : Content → Step p Bool
    pub execute_list_variables : Step p Bool
    pub answer_names : List Bytes → Step p Bool
    pub answer_value : Obj → Step p Bool
    pub transfer_context : Step p Bool
    pub get_content_request_result : Step p Bool
    pub fetch_context_info_messages : Step p Unit

  module _ (calls : Calls p) (h : Handlers) where
    unfoldable pub rest_of_path : Step p Bytes
    unfolding rest_text
    rest_of_path s = (ok (rest_text s.path).0, record s { path = (rest_text s.path).1 })

    unfoldable pub take_rest : Step p Bytes
    unfolding get_rest
    take_rest s = (ok (get_rest s.path).0, record s { path = (get_rest s.path).1 })

    -- the handlers of `execute` and `complete`, and of the loading under a new name
    unfoldable pub answer_exception : Exception → Step p Bool
    unfolding fail
    answer_exception bad_alloc = fail p ErrorCode.out_of_mem
    answer_exception runtime_error = fail p ErrorCode.runtime_error
    answer_exception uncaught = fail p ErrorCode.uncaught_exception
    answer_exception no_behaviour = throw no_behaviour

    unfoldable pub and_then : Step p Bool → Step p Bool → Step p Bool
    and_then m k = ◌>>=◌ m (λ b. if b then k else return false)

    -- [4.B]
    unfoldable pub list_or_fail : MethodId → Step p Bool
    unfolding fail
    list_or_fail get = h.execute_list_variables
    list_or_fail m = fail p ErrorCode.request_resolve_error

    unfoldable pub run_in : Content → Option ℕ → MethodId → Step p Bool
    unfolding list_or_fail fail
    run_in content none m = fail p ErrorCode.request_resolve_error
    run_in content (some c) m =
        if not (p.is_empty_content content) then h.execute_schema content else list_or_fail m

    -- [4]
    unfoldable pub execute_in_context : Content → Step p Bool
    unfolding run_in
    execute_in_context content = with_state (λ s. run_in content s.context s.method_id)

    -- [3.B]
    unfoldable pub call_method : Content → Obj → Option Method → Step p Bool
    unfolding execute_in_context take_rest
    call_method content o none = execute_in_context content
    call_method content o (some m) = do path ← take_rest; calls.call_to_answer o m path content

    unfoldable pub call_class : Content → Obj → (class_id : ℕ) → Step p Bool
    unfolding call_method method_id_name
    call_class content o class = with_state (λ s. call_method content o (
        p.get_method class (method_id_name s.method_id) (not (p.is_empty_content content)) s.world))

    -- the context and its type, which a request with an object has
    unfoldable pub post_in : Obj → Option ℕ → Option Bytes → Step p Bool
    unfolding execute_post_transaction
    post_in o none type = throw no_behaviour
    post_in o (some c) none = throw no_behaviour
    post_in o (some c) (some type) = execute_post_transaction p calls o c type

    unfoldable pub post_to_class : Content → Obj → (class_id : ℕ) → Step p Bool
    unfolding rest_of_path post_in call_class
    post_to_class content o class = do
      rest ← rest_of_path
      (if eq_bytes rest (codes "transaction")
          then with_state (λ s. post_in o s.context s.context_type)
          else call_class content o class)

    -- [3]
    unfoldable pub execute_on_class : Content → Obj → Option ℕ → MethodId → Step p Bool
    unfolding post_to_class call_class execute_in_context
    execute_on_class content o (some class) post = post_to_class content o class
    execute_on_class content o (some class) m = call_class content o class
    execute_on_class content o none get = h.answer_value o
    execute_on_class content o none m = execute_in_context content

    unfoldable pub execute_on_object : Content → Option Obj → Step p Bool
    unfolding execute_on_class execute_in_context
    execute_on_object content none = execute_in_context content
    execute_on_object content (some o) =
        with_state (λ s. execute_on_class content o (p.class_id o) s.method_id)

    unfoldable pub fall_through : Content → Step p Bool
    unfolding execute_on_object
    fall_through content = with_state (λ s. execute_on_object content s.obj)

    -- [1.A], [1.B]
    unfoldable pub execute_put : Content → Option (Transaction ℕ) → Option Obj → Step p Bool
    unfolding execute_commit_transaction fall_through fail
    execute_put content (some tr) o =
        if p.is_empty_content content
        then execute_commit_transaction p calls
        else fall_through content
    execute_put content none none =
        if p.is_empty_content content
        then fail p ErrorCode.incomplete_request
        else h.load_configuration_request content
    execute_put content none (some o) =
        if p.is_empty_content content
        then fail p ErrorCode.incomplete_request
        else h.update_configuration_request content

    -- a type that is missing is a null pointer that is read
    unfoldable pub load_named : Content → (type : Option Bytes) → (name : Bytes) → Step p Bool
    unfolding and_then
    load_named content none name = throw no_behaviour
    load_named content (some type) name =
        and_then (h.load_configuration_request content) (calls.set_answer_link type name 2)

    -- [1.D]
    unfoldable pub execute_post : Content → (type : Option Bytes) → (name : Bytes) → Step p Bool
    unfolding load_named fail
    execute_post content type name =
        if p.is_empty_content content
        then fail p ErrorCode.incomplete_request
        else load_named content type name

    -- [1.E], [1.F]
    unfoldable pub delete_object : Option (Transaction ℕ) → Step p Bool
    unfolding reset_transaction set_http_status reset_request_object
    delete_object (some tr) = do _ ← reset_transaction p; _ ← set_http_status p 204; return true
    delete_object none = do _ ← reset_request_object p; h.delete_configuration_request

    unfoldable pub execute_delete : Content → Option (Transaction ℕ) → Step p Bool
    unfolding delete_object fail
    execute_delete content tr =
        if p.is_empty_content content then delete_object tr else fail p ErrorCode.invalid_request

    -- [1]
    unfoldable pub execute_named : Content → (name : Bytes) → MethodId → Request p → Step p Bool
    unfolding execute_put execute_post execute_delete fall_through fail
    execute_named content name put s = execute_put content s.transaction_ref s.obj
    execute_named content name patch s = fail p ErrorCode.not_implemented
    execute_named content name post s = execute_post content s.context_type name
    execute_named content name delete s = execute_delete content s.transaction_ref
    execute_named content name m s = fall_through content

    -- [2]
    unfoldable pub list_names : Option Bytes → Handler → Step p Bool
    unfolding context_names context_types fail
    list_names none c =
        h.answer_names (context_types c.context_name_map ++ (root_context_name ∷ []))
    list_names (some type) c =
        let names = context_names type c.context_name_map in
        if is_empty names then fail p ErrorCode.request_resolve_error else h.answer_names names

    unfoldable pub released : (rt : Bool) → Result Failure Handler → Step p Bool
    released rt (err e) s = (err no_behaviour, s)
    released rt (ok c) s = (ok rt, record s { config = c })

    unfoldable pub release_name : (type name : Bytes) → (rt : Bool) → Step p Bool
    unfolding release_temporary_context_name released
    release_name type name true = return true
    release_name type name false =
        with_state (λ s. released false (release_temporary_context_name type name s.config))

    -- [1.C]
    unfoldable pub load_as : Content → (type name : Bytes) → Step p Bool
    unfolding and_then set_http_status
    load_as content type name = do
      _ ← modify (λ s. record s { context_name = some name })
      and_then (h.load_configuration_request content)
          (◌>>=◌ (set_http_status p 201) (λ _. calls.set_answer_link type name 1))

    unfoldable pub load_new : Content → (type : Bytes) → Option (Bytes × Handler) → Step p Bool
    unfolding load_as answer_exception release_name
    load_new content type none = throw no_behaviour
    load_new content type (some (name, c)) = do
      _ ← modify (λ s. record s { config = c })
      rt ← catch (load_as content type name) answer_exception
      release_name type name rt

    -- a type that is missing is the null pointer a string is made of
    unfoldable pub post_new : Content → Option Bytes → Step p Bool
    unfolding alloc_temporary_context_name load_new
    post_new content none = throw no_behaviour
    post_new content (some type) =
        with_state (λ s. load_new content type (alloc_temporary_context_name type [] s.config))

    unfoldable pub execute_unnamed : Content → MethodId → Request p → Step p Bool
    unfolding list_names post_new fall_through fail
    execute_unnamed content get s =
        if p.is_empty_content content
        then list_names s.context_type s.config
        else fall_through content
    execute_unnamed content post s =
        if p.is_empty_content content
        then fail p ErrorCode.request_resolve_error
        else post_new content s.context_type
    execute_unnamed content m s =
        if p.is_empty_content content
        then fail p ErrorCode.request_resolve_error
        else fall_through content

    unfoldable pub execute_at_end : Content → Option Bytes → Request p → Step p Bool
    unfolding execute_named execute_unnamed
    execute_at_end content (some name) s = execute_named content name s.method_id s
    execute_at_end content none s = execute_unnamed content s.method_id s

    unfoldable pub execute_object_request : Content → Step p Bool
    unfolding execute_at_end fall_through
    execute_object_request content = with_state (λ s.
        if has_more s.path then fall_through content else execute_at_end content s.context_name s)
