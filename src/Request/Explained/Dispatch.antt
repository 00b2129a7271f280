-- ===== src/Request/Explained/Dispatch.antt =====
-- The answers of requests that fail: the choice by method, path and content in
-- `executeObjectRequest` (src/webrequest/webRequestContext.cpp).
use strus_bindings.Base.{
  ℕ, Bool, true, false, Option, none, some, [], ◌∷◌, ◌++◌, Bytes, codes, is_empty,
}
use strus_bindings.Base.Action.{◌>>=◌, return, catch, Ends-bind, Ends-mono}
use strus_bindings.Base.Result.{Result, ok, err}
use strus_bindings.Config.ContextMap.{context_names, context_types}
use strus_bindings.Config.Handler.{
  Handler, Failure, alloc_temporary_context_name, release_temporary_context_name,
}
use strus_bindings.Transaction.Pool.{Transaction}
use strus_bindings.WebRequest.ErrorCode.{ErrorCode}
use strus_bindings.Request.State.{
  MethodId, undefined, get, put, post, patch, delete, options, head, Papuga, root_context_name,
  Request, fail, set_http_status, reset_transaction, reset_request_object,
}
use strus_bindings.Request.Transact.{
  Calls, commit_by, commit_class, commit_object, execute_commit_transaction,
}
use strus_bindings.Request.Execute.{
  Handlers, answer_exception, fall_through, execute_put, load_named, execute_post, delete_object,
  execute_delete, execute_named, list_names, released, release_name, load_as, load_new, post_new,
}
use strus_bindings.Request.Explained.{Told, Any, Explains, after, fail-Told, if-Told}
use strus_bindings.Request.Explained.Execute.{
  AllExplain, and_then-Told, Escapes, caught-Told, fall_through-Told,
}

module _ (p : Papuga) (calls : Calls p) (h : Handlers p) (e : AllExplain p calls h) where
  open p use {Obj, Method, Content}

  reset-Told :
      (b : Bool) (s : Request p)
      → Told p b s
      → Explains p (◌>>=◌ (reset_transaction p) (λ _. return b) s)
  unfolding reset_transaction
  reset-Told true s t = tt
  reset-Told false s t = t

  commit_by-Told :
      (o : Obj) (m : Option Method) (s : Request p) → Explains p (commit_by p calls o m s)
  unfolding commit_by
  commit_by-Told o none s = fail-Told p ErrorCode.request_resolve_error s
  commit_by-Told o (some m) s =
      Ends-bind (Told p) (Told p) (Any p) (calls.call_to_answer o m [] p.empty_content s)
        (λ b. ◌>>=◌ (reset_transaction p) (λ _. return b))
        (e.calls_to_answer o m [] p.empty_content s) (λ b s1 t. reset-Told b s1 t)

  commit_class-Told :
      (o : Obj) (c : Option ℕ) (s : Request p) → Explains p (commit_class p calls o c s)
  unfolding commit_class
  commit_class-Told o none s = fail-Told p ErrorCode.request_resolve_error s
  commit_class-Told o (some c) s =
      commit_by-Told o (p.get_method c (codes "PUT/transaction") false s.world) s

  commit_object-Told : (o : Option Obj) (s : Request p) → Explains p (commit_object p calls o s)
  unfolding commit_object
  commit_object-Told none s = fail-Told p ErrorCode.request_resolve_error s
  commit_object-Told (some o) s = commit_class-Told o (p.class_id o) s

  put-Told :
      (x : Content) (tr : Option (Transaction ℕ)) (o : Option Obj) (s : Request p)
      → Explains p (execute_put p calls h x tr o s)
  unfolding execute_put execute_commit_transaction
  put-Told x (some tr) o s =
      if-Told p (p.is_empty_content x) (execute_commit_transaction p calls)
        (fall_through p calls h x) s (commit_object-Told s.obj s)
        (fall_through-Told p calls h e x s)
  put-Told x none none s =
      if-Told p (p.is_empty_content x) (fail p ErrorCode.incomplete_request)
        (h.load_configuration_request x) s (fail-Told p ErrorCode.incomplete_request s)
        (e.loads x s)
  put-Told x none (some o) s =
      if-Told p (p.is_empty_content x) (fail p ErrorCode.incomplete_request)
        (h.update_configuration_request x) s (fail-Told p ErrorCode.incomplete_request s)
        (e.updates x s)

  load_named-Told :
      (x : Content) (type : Option Bytes) (name : Bytes) (s : Request p)
      → Explains p (load_named p calls h x type name s)
  unfolding load_named
  load_named-Told x none name s = tt
  load_named-Told x (some type) name s =
      and_then-Told p calls h e (h.load_configuration_request x) (calls.set_answer_link type name 2)
        s (e.loads x s) (λ s1. e.links type name 2 s1)

  post-Told :
      (x : Content) (type : Option Bytes) (name : Bytes) (s : Request p)
      → Explains p (execute_post p calls h x type name s)
  unfolding execute_post
  post-Told x type name s =
      if-Told p (p.is_empty_content x) (fail p ErrorCode.incomplete_request)
        (load_named p calls h x type name) s (fail-Told p ErrorCode.incomplete_request s)
        (load_named-Told x type name s)

  delete_object-Told :
      (tr : Option (Transaction ℕ)) (s : Request p) → Explains p (delete_object p calls h tr s)
  unfolding delete_object reset_transaction set_http_status
  delete_object-Told (some tr) s = tt
  delete_object-Told none s =
      after p (reset_request_object p) (λ _. h.delete_configuration_request) s
        (λ _ s1. e.deletes s1)

  delete-Told :
      (x : Content) (tr : Option (Transaction ℕ)) (s : Request p)
      → Explains p (execute_delete p calls h x tr s)
  unfolding execute_delete
  delete-Told x tr s =
      if-Told p (p.is_empty_content x) (delete_object p calls h tr)
        (fail p ErrorCode.invalid_request) s (delete_object-Told tr s)
        (fail-Told p ErrorCode.invalid_request s)

  pub named-Told :
      (x : Content) (name : Bytes) (m : MethodId) (s : Request p)
      → Explains p (execute_named p calls h x name m s s)
  unfolding execute_named
  named-Told x name put s = put-Told x s.transaction_ref s.obj s
  named-Told x name patch s = fail-Told p ErrorCode.not_implemented s
  named-Told x name post s = post-Told x s.context_type name s
  named-Told x name delete s = delete-Told x s.transaction_ref s
  named-Told x name get s = fall_through-Told p calls h e x s
  named-Told x name undefined s = fall_through-Told p calls h e x s
  named-Told x name options s = fall_through-Told p calls h e x s
  named-Told x name head s = fall_through-Told p calls h e x s

  pub list_names-Told :
      (type : Option Bytes) (c : Handler) (s : Request p)
      → Explains p (list_names p calls h type c s)
  unfolding list_names
  list_names-Told none c s =
      e.names (context_types c.context_name_map ++ (root_context_name ∷ [])) s
  list_names-Told (some type) c s =
      let names = context_names type c.context_name_map in
      if-Told p (is_empty names) (fail p ErrorCode.request_resolve_error) (h.answer_names names) s
        (fail-Told p ErrorCode.request_resolve_error s) (e.names names s)

  released-Told :
      (r : Result Failure Handler) (s : Request p)
      → Told p false s
      → Explains p (released p calls h false r s)
  unfolding released
  released-Told (err x) s t = tt
  released-Told (ok c) s t = t

  release_name-Told :
      (type name : Bytes) (b : Bool) (s : Request p)
      → Told p b s
      → Explains p (release_name p calls h type name b s)
  unfolding release_name
  release_name-Told type name true s t = tt
  release_name-Told type name false s t =
      released-Told (release_temporary_context_name type name s.config) s t

  load_as-Told :
      (x : Content) (type name : Bytes) (s : Request p)
      → Explains p (load_as p calls h x type name s)
  unfolding load_as
  load_as-Told x type name s =
      let link = ◌>>=◌ (set_http_status p 201) (λ _. calls.set_answer_link type name 1) in
      let s1 : Request p = record s { context_name = some name } in
      and_then-Told p calls h e (h.load_configuration_request x) link s1 (e.loads x s1) (λ s2.
        after p (set_http_status p 201) (λ _. calls.set_answer_link type name 1) s2
          (λ _ s3. e.links type name 1 s3))

  load_new-Told :
      (x : Content) (type : Bytes) (n : Option (Bytes × Handler)) (s : Request p)
      → Explains p (load_new p calls h x type n s)
  unfolding load_new
  load_new-Told x type none s = tt
  load_new-Told x type (some (name, c)) s =
      let s1 : Request p = record s { config = c } in
      Ends-bind (Told p) (Told p) (Any p)
        (catch (load_as p calls h x type name) (answer_exception p calls h) s1)
        (release_name p calls h type name)
        (Ends-mono (Told p) (Told p) (Escapes p calls h e) (Any p)
          (catch (load_as p calls h x type name) (answer_exception p calls h) s1) (λ _ _ t. t)
          (λ _ _ _. tt)
          (caught-Told p calls h e (load_as p calls h x type name) s1
            (load_as-Told x type name s1)))
        (λ b s2 t. release_name-Told type name b s2 t)

  pub post_new-Told :
      (x : Content) (type : Option Bytes) (s : Request p) → Explains p (post_new p calls h x type s)
  unfolding post_new
  post_new-Told x none s = tt
  post_new-Told x (some type) s =
      load_new-Told x type (alloc_temporary_context_name type [] s.config) s
