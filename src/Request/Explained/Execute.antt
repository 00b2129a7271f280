-- ===== src/Request/Explained/Execute.antt =====
-- The answers of requests that fail: the parts of `executeObjectRequest` that fall through to the
-- object or the context (src/webrequest/webRequestContext.cpp).
use strus_bindings.Base.{
  ℕ, ◌≡◌, refl, Bool, true, false, not, Option, none, some, List, [], ◌∷◌, ◌++◌, Bytes, codes,
  eq_bytes, if◌then◌else◌, arith,
}
use strus_bindings.Base.Action.{return, with_state, catch, Ends, Ends-bind, Ends-recover}
use strus_bindings.Transaction.Operations.{create_transaction}
use strus_bindings.WebRequest.ErrorCode.{ErrorCode}
use strus_bindings.Request.State.{
  MethodId, undefined, get, put, post, patch, delete, options, head, method_id_name, Exception,
  bad_alloc, runtime_error, uncaught, no_behaviour, Papuga, Request, Step, set_http_status, of_pool,
}
use strus_bindings.Request.Transact.{
  CallResult, failed, returned, defined, to_variable, call_to_variable, Calls, answer_transaction,
  store_transaction, post_by, post_class, execute_post_transaction,
}
use strus_bindings.Request.Execute.{
  Handlers, rest_of_path, take_rest, answer_exception, and_then, list_or_fail, run_in,
  execute_in_context, call_method, call_class, post_in, post_to_class, execute_on_class,
  execute_on_object, fall_through,
}
use strus_bindings.Request.Explained.{Told, Any, Explains, after, fail-Told, if-Told}

module _ (p : Papuga) (calls : Calls p) (h : Handlers p) where
  open p use {Obj, Method, Content}

  -- The other parts of a request explain their failures too, and papuga can define variables.
  pub record AllExplain : Type 0 where
    pub defines :
        (c : ℕ) (name : Bytes) (v : p.Value) (s : Request p)
        → Ends (λ b _. b ≡ true) (Any p) (calls.define_variable c name v s)
    pub calls_to_answer :
        (o : Obj) (m : Method) (path : Bytes) (x : Content) (s : Request p)
        → Explains p (calls.call_to_answer o m path x s)
    pub links :
        (title id : Bytes) (level : ℕ) (s : Request p)
        → Explains p (calls.set_answer_link title id level s)
    pub loads : (x : Content) (s : Request p) → Explains p (h.load_configuration_request x s)
    pub updates : (x : Content) (s : Request p) → Explains p (h.update_configuration_request x s)
    pub retries :
        (x : Content) (s : Request p) → Explains p (h.update_configuration_request_retry x s)
    pub deletes : (s : Request p) → Explains p (h.delete_configuration_request s)
    pub main : (x : Content) (s : Request p) → Explains p (h.load_main_configuration x s)
    pub embedded : (x : Content) (s : Request p) → Explains p (h.load_embedded_configuration x s)
    pub types : (x : Content) (s : Request p) → Explains p (h.init_content_type x s)
    pub descriptions : (s : Request p) → Explains p (h.execute_schema_description s)
    pub options : (s : Request p) → Explains p (h.execute_options s)
    pub schemas : (x : Content) (s : Request p) → Explains p (h.execute_schema x s)
    pub variables : (s : Request p) → Explains p (h.execute_list_variables s)
    pub names : (ns : List Bytes) (s : Request p) → Explains p (h.answer_names ns s)
    pub values : (o : Obj) (s : Request p) → Explains p (h.answer_value o s)

  module _ (e : AllExplain) where
    pub and_then-Told :
        (m k : Step p Bool) (s : Request p)
        → Explains p (m s)
        → ((s : Request p) → Explains p (k s))
        → Explains p (and_then p calls h m k s)
    unfolding and_then
    and_then-Told m k s i j =
        Ends-bind (Told p) (Told p) (Any p) (m s) (λ b. if b then k else return false) i
          (λ b s1 t. continue b s1 t)
      where
        continue :
            (b : Bool) (s1 : Request p)
            → Told p b s1
            → Explains p ((if b then k else return false) s1)
        continue true s1 t = j s1
        continue false s1 t = t

    -- the exception that the handlers let pass
    abbrev pub Escapes : Exception → Request p → Type 0
    Escapes x s = x ≡ no_behaviour

    answer_exception-Told :
        (x : Exception) (s : Request p) → Ends (Told p) Escapes (answer_exception p calls h x s)
    unfolding answer_exception
    answer_exception-Told bad_alloc s = fail-Told p ErrorCode.out_of_mem s
    answer_exception-Told runtime_error s = fail-Told p ErrorCode.runtime_error s
    answer_exception-Told uncaught s = fail-Told p ErrorCode.uncaught_exception s
    answer_exception-Told no_behaviour s = refl

    pub caught-Told :
        (m : Step p Bool) (s : Request p)
        → Explains p (m s)
        → Ends (Told p) Escapes (catch m (answer_exception p calls h) s)
    caught-Told m s i =
        Ends-recover (Told p) (Any p) Escapes (m s) (answer_exception p calls h) i
          (λ x s1 _. answer_exception-Told x s1)

    listed-Told : (m : MethodId) (s : Request p) → Explains p (list_or_fail p calls h m s)
    unfolding list_or_fail
    listed-Told get s = e.variables s
    listed-Told undefined s = fail-Told p ErrorCode.request_resolve_error s
    listed-Told put s = fail-Told p ErrorCode.request_resolve_error s
    listed-Told post s = fail-Told p ErrorCode.request_resolve_error s
    listed-Told patch s = fail-Told p ErrorCode.request_resolve_error s
    listed-Told delete s = fail-Told p ErrorCode.request_resolve_error s
    listed-Told options s = fail-Told p ErrorCode.request_resolve_error s
    listed-Told head s = fail-Told p ErrorCode.request_resolve_error s

    run_in-Told :
        (x : Content) (c : Option ℕ) (m : MethodId) (s : Request p)
        → Explains p (run_in p calls h x c m s)
    unfolding run_in
    run_in-Told x none m s = fail-Told p ErrorCode.request_resolve_error s
    run_in-Told x (some c) m s =
        if-Told p (not (p.is_empty_content x)) (h.execute_schema x) (list_or_fail p calls h m) s
          (e.schemas x s) (listed-Told m s)

    in_context-Told : (x : Content) (s : Request p) → Explains p (execute_in_context p calls h x s)
    unfolding execute_in_context
    in_context-Told x s = run_in-Told x s.context s.method_id s

    call_method-Told :
        (x : Content) (o : Obj) (m : Option Method) (s : Request p)
        → Explains p (call_method p calls h x o m s)
    unfolding call_method
    call_method-Told x o none s = in_context-Told x s
    call_method-Told x o (some m) s =
        after p (take_rest p calls h) (λ path. calls.call_to_answer o m path x) s
          (λ path s1. e.calls_to_answer o m path x s1)

    call_class-Told :
        (x : Content) (o : Obj) (c : ℕ) (s : Request p) → Explains p (call_class p calls h x o c s)
    unfolding call_class
    call_class-Told x o c s =
        call_method-Told x o
          (p.get_method c (method_id_name s.method_id) (not (p.is_empty_content x)) s.world) s

    answer_transaction-Told :
        (tid : Bytes) (s : Request p) → Explains p (answer_transaction p calls tid s)
    unfolding answer_transaction
    answer_transaction-Told [] s = fail-Told p ErrorCode.out_of_mem s
    answer_transaction-Told (c ∷ cs) s =
        after p (set_http_status p 201)
          (λ _. calls.set_answer_link (codes "transaction") (c ∷ cs) 3) s
          (λ _ s1. e.links (codes "transaction") (c ∷ cs) 3 s1)

    store_transaction-Told :
        (c : ℕ) (type : Bytes) (b : Bool) (s : Request p)
        → Told p b s
        → Explains p (store_transaction p calls c type b s)
    unfolding store_transaction
    store_transaction-Told c type false s t = t
    store_transaction-Told c type true s t =
        after p
          (of_pool p (
            create_transaction (codes "transaction/" ++ type) c calls.max_idle_time calls.address
              calls.memory))
          (answer_transaction p calls) s answer_transaction-Told

    defined-Told :
        (status : ℕ) (b : Bool) (s : Request p) → b ≡ true → Explains p (defined p calls status b s)
    unfolding defined set_http_status
    defined-Told status true s e = tt
    defined-Told status false s e = absurd (ground (arith, e))

    to_variable-Told :
        (c : ℕ) (name : Bytes) (r : CallResult p) (s : Request p)
        → Explains p (to_variable p calls c name r s)
    unfolding to_variable
    to_variable-Told c name (failed x) s = fail-Told p x s
    to_variable-Told c name (returned [] status) s = fail-Told p ErrorCode.runtime_error s
    to_variable-Told c name (returned (v ∷ []) status) s =
        Ends-bind (λ b _. b ≡ true) (Told p) (Any p) (calls.define_variable c name v s)
          (defined p calls status) (e.defines c name v s) (λ b s1 t. defined-Told status b s1 t)
    to_variable-Told c name (returned (v ∷ w ∷ vs) status) s = fail-Told p ErrorCode.runtime_error s

    call_to_variable-Told :
        (o : Obj) (m : Method) (c : ℕ) (name : Bytes) (s : Request p)
        → Explains p (call_to_variable p calls o m c name s)
    unfolding call_to_variable
    call_to_variable-Told o m c name s =
        after p (calls.call_method o m [] p.empty_content) (to_variable p calls c name) s
          (to_variable-Told c name)

    post_by-Told :
        (o : Obj) (m : Option Method) (c : ℕ) (type : Bytes) (s : Request p)
        → Explains p (post_by p calls o m c type s)
    unfolding post_by
    post_by-Told o none c type s = fail-Told p ErrorCode.request_resolve_error s
    post_by-Told o (some m) c type s =
        Ends-bind (Told p) (Told p) (Any p) (call_to_variable p calls o m c (codes "transaction") s)
          (store_transaction p calls c type) (call_to_variable-Told o m c (codes "transaction") s)
          (λ b s1 t. store_transaction-Told c type b s1 t)

    post_class-Told :
        (o : Obj) (class : Option ℕ) (c : ℕ) (type : Bytes) (s : Request p)
        → Explains p (post_class p calls o class c type s)
    unfolding post_class
    post_class-Told o none c type s = fail-Told p ErrorCode.logic_error s
    post_class-Told o (some class) c type s =
        post_by-Told o (p.get_method class (codes "POST/transaction") false s.world) c type s

    post_in-Told :
        (o : Obj) (c : Option ℕ) (type : Option Bytes) (s : Request p)
        → Explains p (post_in p calls h o c type s)
    unfolding post_in execute_post_transaction
    post_in-Told o none type s = tt
    post_in-Told o (some c) none s = tt
    post_in-Told o (some c) (some type) s = post_class-Told o (p.class_id o) c type s

    post_to_class-Told :
        (x : Content) (o : Obj) (c : ℕ) (s : Request p)
        → Explains p (post_to_class p calls h x o c s)
    unfolding post_to_class
    post_to_class-Told x o c s =
        after p (rest_of_path p calls h)
          (λ rest.
            if eq_bytes rest (codes "transaction")
            then with_state (λ s. post_in p calls h o s.context s.context_type)
            else call_class p calls h x o c)
          s
          (λ rest s1.
            if-Told p (eq_bytes rest (codes "transaction"))
              (with_state (λ s. post_in p calls h o s.context s.context_type))
              (call_class p calls h x o c) s1 (post_in-Told o s1.context s1.context_type s1)
              (call_class-Told x o c s1))

    on_class-Told :
        (x : Content) (o : Obj) (c : Option ℕ) (m : MethodId) (s : Request p)
        → Explains p (execute_on_class p calls h x o c m s)
    unfolding execute_on_class
    on_class-Told x o (some c) post s = post_to_class-Told x o c s
    on_class-Told x o (some c) get s = call_class-Told x o c s
    on_class-Told x o (some c) undefined s = call_class-Told x o c s
    on_class-Told x o (some c) put s = call_class-Told x o c s
    on_class-Told x o (some c) patch s = call_class-Told x o c s
    on_class-Told x o (some c) delete s = call_class-Told x o c s
    on_class-Told x o (some c) options s = call_class-Told x o c s
    on_class-Told x o (some c) head s = call_class-Told x o c s
    on_class-Told x o none get s = e.values o s
    on_class-Told x o none post s = in_context-Told x s
    on_class-Told x o none undefined s = in_context-Told x s
    on_class-Told x o none put s = in_context-Told x s
    on_class-Told x o none patch s = in_context-Told x s
    on_class-Told x o none delete s = in_context-Told x s
    on_class-Told x o none options s = in_context-Told x s
    on_class-Told x o none head s = in_context-Told x s

    on_object-Told :
        (x : Content) (o : Option Obj) (s : Request p)
        → Explains p (execute_on_object p calls h x o s)
    unfolding execute_on_object
    on_object-Told x none s = in_context-Told x s
    on_object-Told x (some o) s = on_class-Told x o (p.class_id o) s.method_id s

    pub fall_through-Told : (x : Content) (s : Request p) → Explains p (fall_through p calls h x s)
    unfolding fall_through
    fall_through-Told x s = on_object-Told x s.obj s
