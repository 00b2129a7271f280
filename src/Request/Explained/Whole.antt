-- ===== src/Request/Explained/Whole.antt =====
-- The answers of requests that fail: `executeObjectRequest` and `execute` as a whole
-- (src/webrequest/webRequestContext.cpp).
use strus_bindings.Base.{◌≡◌, ◌≢◌, refl, Bool, Option, none, some, Bytes, if◌then◌else◌}
use strus_bindings.Base.Action.{with_state, Ends}
use strus_bindings.WebRequest.ErrorCode.{ErrorCode}
use strus_bindings.WebRequest.PathBuf.{has_more}
use strus_bindings.Request.State.{
  RequestType, undefined_request, schema_description_request, method_options_request,
  load_main_configuration, load_embedded_configuration, object_request,
  interrupted_load_configuration_request, MethodId, undefined, get, put, post, patch, delete,
  options, head, no_behaviour, Papuga, Request, Step, fail,
}
use strus_bindings.Request.Object.{init_request_object}
use strus_bindings.Request.Transact.{Calls}
use strus_bindings.Request.Execute.{
  Handlers, and_then, fall_through, list_names, post_new, execute_unnamed, execute_at_end,
  execute_object_request,
}
use strus_bindings.Request.Complete.{without_content, execute_type, execute}
use strus_bindings.Request.Explained.{Told, Explains, fail-Told, if-Told, init_request_object-Told}
use strus_bindings.Request.Explained.Execute.{
  AllExplain, and_then-Told, caught-Told, fall_through-Told,
}
use strus_bindings.Request.Explained.Dispatch.{named-Told, list_names-Told, post_new-Told}

module _ (p : Papuga) (calls : Calls p) (h : Handlers p) (e : AllExplain p calls h) where
  open p use {Content}

  fall_unless-Told :
      (x : Content) (s : Request p)
      → Explains p (
          (if p.is_empty_content x
              then fail p ErrorCode.request_resolve_error
              else fall_through p calls h x)
            s)
  fall_unless-Told x s =
      if-Told p (p.is_empty_content x) (fail p ErrorCode.request_resolve_error)
        (fall_through p calls h x) s (fail-Told p ErrorCode.request_resolve_error s)
        (fall_through-Told p calls h e x s)

  unnamed-Told :
      (x : Content) (m : MethodId) (s : Request p) → Explains p (execute_unnamed p calls h x m s s)
  unfolding execute_unnamed
  unnamed-Told x get s =
      if-Told p (p.is_empty_content x) (list_names p calls h s.context_type s.config)
        (fall_through p calls h x) s (list_names-Told p calls h e s.context_type s.config s)
        (fall_through-Told p calls h e x s)
  unnamed-Told x post s =
      if-Told p (p.is_empty_content x) (fail p ErrorCode.request_resolve_error)
        (post_new p calls h x s.context_type) s (fail-Told p ErrorCode.request_resolve_error s)
        (post_new-Told p calls h e x s.context_type s)
  unnamed-Told x put s = fall_unless-Told x s
  unnamed-Told x patch s = fall_unless-Told x s
  unnamed-Told x delete s = fall_unless-Told x s
  unnamed-Told x undefined s = fall_unless-Told x s
  unnamed-Told x options s = fall_unless-Told x s
  unnamed-Told x head s = fall_unless-Told x s

  at_end-Told :
      (x : Content) (name : Option Bytes) (s : Request p)
      → Explains p (execute_at_end p calls h x name s s)
  unfolding execute_at_end
  at_end-Told x (some name) s = named-Told p calls h e x name s.method_id s
  at_end-Told x none s = unnamed-Told x s.method_id s

  object_request-Told :
      (x : Content) (s : Request p) → Explains p (execute_object_request p calls h x s)
  unfolding execute_object_request
  object_request-Told x s =
      if-Told p (has_more s.path) (fall_through p calls h x)
        (execute_at_end p calls h x s.context_name s) s (fall_through-Told p calls h e x s)
        (at_end-Told x s.context_name s)

  without_content-Told :
      (x : Content) (m : Step p Bool) (s : Request p)
      → Explains p (m s)
      → Explains p (without_content p calls h x m s)
  unfolding without_content
  without_content-Told x m s i =
      if-Told p (p.is_empty_content x) m (fail p ErrorCode.invalid_argument) s i
        (fail-Told p ErrorCode.invalid_argument s)

  execute_type-Told :
      (x : Content) (t : RequestType) (s : Request p)
      → t ≢ schema_description_request
      → Explains p (execute_type p calls h x t s)
  unfolding execute_type
  execute_type-Told x undefined_request s n = fail-Told p ErrorCode.incomplete_request s
  execute_type-Told x schema_description_request s n = absurd (n refl)
  execute_type-Told x method_options_request s n =
      let run = without_content p calls h x h.execute_options in
      and_then-Told p calls h e (h.init_content_type x)
        (and_then p calls h (init_request_object p) run) s (e.types x s)
        (λ s1.
          and_then-Told p calls h e (init_request_object p) run s1 (init_request_object-Told p s1)
            (λ s2. without_content-Told x h.execute_options s2 (e.options s2)))
  execute_type-Told x load_main_configuration s n = e.main x s
  execute_type-Told x load_embedded_configuration s n = e.embedded x s
  execute_type-Told x object_request s n =
      let run = execute_object_request p calls h x in
      and_then-Told p calls h e (h.init_content_type x)
        (and_then p calls h (init_request_object p) run) s (e.types x s)
        (λ s1.
          and_then-Told p calls h e (init_request_object p) run s1 (init_request_object-Told p s1)
            (λ s2. object_request-Told x s2))
  execute_type-Told x interrupted_load_configuration_request s n = e.retries x s

  -- If the parts of a request that load configurations, run schemas and methods and print answers
  -- return false only with an error in the answer and papuga can define variables, then `execute`
  -- returns false only with an error too, whatever the method, the path and the content of the
  -- request are and whatever its type is but a description of a schema, and it throws only where the
  -- source has no defined behaviour.
  pub execute-Explains :
      (x : Content) (s : Request p)
      → s.request_type ≢ schema_description_request
      → Ends (Told p) (λ r _. r ≡ no_behaviour) (execute p calls h x s)
  unfolding execute
  execute-Explains x s n =
      caught-Told p calls h e (with_state (λ s1. execute_type p calls h x s1.request_type)) s
        (execute_type-Told x s.request_type s n)
