-- ===== src/Request/Silent.antt =====
-- Descriptions of schemas that fail without an answer: `initSchemaDescriptionObject`
-- (src/webrequest/webRequestContext_obj.cpp) in `execute` (src/webrequest/webRequestContext.cpp).
use strus_bindings.Base.{
  ◌≡◌, ◌⊎◌, inl, inr, refl, sym, ap, subst, ◌∙◌, Bool, true, false, Option, none, some, Bytes,
  eq_bytes, if◌then◌else◌, arith,
}
use strus_bindings.Base.Action.{◌>>=◌, return, modify, go_on, recover}
use strus_bindings.Base.Result.{Result, ok}
use strus_bindings.WebRequest.PathBuf.{get_next}
use strus_bindings.Request.State.{
  schema_description_request, Exception, Papuga, root_context_name, Request, Step, next_name,
}
use strus_bindings.Request.Object.{
  name_schema, schema_of_type, type_schema, init_schema_description_object,
}
use strus_bindings.Request.Transact.{Calls}
use strus_bindings.Request.Execute.{Handlers, answer_exception, and_then}
use strus_bindings.Request.Complete.{without_content, execute_type, execute}

module _ (p : Papuga) where
  -- false is returned, with the answer of the request as it was
  abbrev pub Silently : Result Exception Bool × Request p → Request p → Type 0
  Silently r s = (s2 : Request p) × (r ≡ (ok false, s2)) × (s2.answer ≡ s.answer)

  name_schema-Silently :
      (name : Option Bytes) (s : Request p) → name ≡ none → Silently (name_schema p name s) s
  unfolding name_schema
  name_schema-Silently name s e =
      subst (λ n. Silently (name_schema p n s) s) (sym e)
        (record s { context_name = none }, refl, refl)

  schema_of_type-Silently :
      (type : Bytes) (s : Request p)
      → (eq_bytes type root_context_name ≡ true) ⊎ ((get_next s.path).0 ≡ none)
      → Silently (schema_of_type p (some type) s) s
  unfolding schema_of_type next_name
  schema_of_type-Silently type s h = by_test (eq_bytes type root_context_name) h
    where
      by_test :
          (b : Bool)
          → (b ≡ true) ⊎ ((get_next s.path).0 ≡ none)
          → Silently
              ((if b
                  then (do
                    _ ← modify (λ s1. record s1 { context_name = some root_context_name })
                    return false)
                  else ◌>>=◌ (next_name p) (name_schema p))
                s)
              s
      by_test true k = (record s { context_name = some root_context_name }, refl, refl)
      by_test false (inl e) = absurd (ground (arith, e))
      by_test false (inr e) =
          let (s2, r, a) =
            name_schema-Silently (get_next s.path).0 (record s { path = (get_next s.path).1 }) e in
          (s2, r, a)

  object-Silently :
      (type : Bytes) (s : Request p)
      → (get_next s.path).0 ≡ some type
      → (eq_bytes type root_context_name ≡ true) ⊎ ((get_next (get_next s.path).1).0 ≡ none)
      → Silently (init_schema_description_object p s) s
  unfolding init_schema_description_object next_name type_schema
  object-Silently type s e h =
      let s1 : Option Bytes → Request p =
        λ t. record s { path = (get_next s.path).1; context_type = t } in
      subst (λ t. Silently (schema_of_type p t (s1 t)) s) (sym e)
        (schema_of_type-Silently type (s1 (some type)) h)

  module _ (calls : Calls p) (h : Handlers p) where
    -- A request for the description of a schema of the root context, or of a type without a name,
    -- fails without an error: `execute` returns false and leaves the answer as the scanning of the
    -- content type has left it.
    pub execute-Silently :
        (x : p.Content) (type : Bytes) (s s1 : Request p)
        → s.request_type ≡ schema_description_request
        → h.init_content_type x s ≡ (ok true, s1)
        → (get_next s1.path).0 ≡ some type
        → (eq_bytes type root_context_name ≡ true) ⊎ ((get_next (get_next s1.path).1).0 ≡ none)
        → Silently (execute p calls h x s) s1
    unfolding execute execute_type and_then
    execute-Silently x type s s1 t c e k =
        let (s2, r, a) = object-Silently type s1 e k in
        let describe : Bool → Step p Bool = λ b.
          if b then without_content p calls h x h.execute_schema_description else return false in
        let start : Bool → Step p Bool =
          λ b. if b then ◌>>=◌ (init_schema_description_object p) describe else return false in
        let run : execute_type p calls h x schema_description_request s ≡ (ok false, s2) =
          ap (go_on start) c ∙ ap (go_on describe) r in
        (
          s2,
          ap (λ z. recover (answer_exception p calls h) (execute_type p calls h x z s)) t
              ∙ ap (recover (answer_exception p calls h)) run,
          a,
        )
