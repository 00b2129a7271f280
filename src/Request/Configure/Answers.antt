-- ===== src/Request/Configure/Answers.antt =====
-- The answers of requests for configurations that fail (src/webrequest/webRequestContext_config.cpp).
use strus_bindings.Base.{
  ℕ, Bool, true, false, Option, none, some, List, [], ◌∷◌, if◌then◌else◌, Bytes, codes, eq_bytes,
}
use strus_bindings.Base.Action.{return, with_state, Ends-bind}
use strus_bindings.Config.Handler.{FileSystem}
use strus_bindings.WebRequest.ErrorCode.{PapugaError, ErrorCode, papuga_error_to_error_code}
use strus_bindings.Request.State.{
  put, interrupted_load_configuration_request, Papuga, root_context_name, Request, Step, fail,
  reset_transaction,
}
use strus_bindings.Request.Object.{create_context, inherit_from}
use strus_bindings.Request.Explained.{Told, Any, Explains, after, fail-Told, if-Told}
use strus_bindings.Request.Configure.{
  SchemaId, get_schema_id, Schemas, all_true, read_text, created, init_empty_object, root_inherited,
  inherit_root, init_root_object, on_store, use_automaton, init_content_schema_automaton, store_op,
  store_description, store_named, init_typed, init_configuration_request, load_schema, load_content,
  load_configuration_request, run_exclusive, update_content, update_loaded,
  update_configuration_request, load_main_configuration, embedded_automaton,
  load_embedded_configuration,
}

module _ (p : Papuga) (fs : FileSystem) where
  abbrev pub Tells : Step p Bool → Type 0
  Tells f = (s : Request p) → Explains p (f s)

  abbrev pub AllTell : List (Step p Bool) → Type 0
  AllTell [] = Unit
  AllTell (f ∷ fs) = Tells f × AllTell fs

  pub all_true-Told : (ms : List (Step p Bool)) → AllTell ms → Tells (all_true p fs ms)
  unfolding all_true
  all_true-Told [] k s = tt
  all_true-Told (f ∷ ms) k s =
      Ends-bind (Told p) (Told p) (Any p) (f s) (λ b. if b then all_true p fs ms else return false)
        (k.0 s) (λ b s1 t. go b s1 (all_true-Told ms k.1 s1) t)
    where
      go :
          (b : Bool) (s1 : Request p)
          → Explains p (all_true p fs ms s1)
          → Told p b s1
          → Explains p ((if b then all_true p fs ms else return false) s1)
      go true s1 i t = i
      go false s1 i t = t

  pub read_text-Told :
      (o : Option Bytes) (f : Bytes → Step p Bool)
      → ((b : Bytes) → Tells (f b))
      → Tells (read_text p fs o f)
  unfolding read_text
  read_text-Told none f k s = tt
  read_text-Told (some b) f k s = k b s

  created-Told : (o : Option ℕ) → Tells (created p fs o)
  unfolding created
  created-Told none s = fail-Told p ErrorCode.out_of_mem s
  created-Told (some c) s = tt

  empty_object-Told : Tells (init_empty_object p fs)
  unfolding init_empty_object reset_transaction create_context
  empty_object-Told s = created-Told (p.create s.world).0 _

  inherited-Told : (e : Option PapugaError) → Tells (root_inherited p fs e)
  unfolding root_inherited
  inherited-Told none s = tt
  inherited-Told (some e) s = fail-Told p (papuga_error_to_error_code e) s

  inherit_root-Told : (o : Option ℕ) → Tells (inherit_root p fs o)
  unfolding inherit_root
  inherit_root-Told none s = tt
  inherit_root-Told (some c) s =
      after p (inherit_from p c root_context_name root_context_name) (root_inherited p fs) s
        inherited-Told

  pub root_object-Told : Tells (init_root_object p fs)
  unfolding init_root_object
  root_object-Told =
      all_true-Told (init_empty_object p fs ∷ with_state (λ s. inherit_root p fs s.context) ∷ [])
        (empty_object-Told, ((λ s. inherit_root-Told s.context s), tt))

  -- The schemas and papuga explain their failures.
  pub record SchemasTell (c : Schemas p fs) : Type 0 where
    pub types : (x : p.Content) → Tells (c.init_content_type x)
    pub executes : (x : p.Content) → Tells (c.execute_content_schema_automaton x)
    pub removes : (type name : Bytes) → Tells (c.remove_context type name)

  module _ (c : Schemas p fs) (e : SchemasTell c) where
    use-Told : (id : SchemaId) (found : Bool) → Tells (use_automaton p fs c id found)
    unfolding use_automaton
    use-Told id false s = fail-Told p ErrorCode.request_resolve_error s
    use-Told id true s = tt

    pub automaton-Told : (id : SchemaId) → Tells (init_content_schema_automaton p fs c id)
    unfolding init_content_schema_automaton
    automaton-Told id s = use-Told id (c.has_automaton id s.world) s

    typed-Told :
        (x : p.Content) (update : Bool) (type : Bytes) → Tells (init_typed p fs c x update type)
    unfolding init_typed store_named store_description
    typed-Told x update type s =
        if-Told p (eq_bytes type root_context_name) (fail p ErrorCode.invalid_request)
          (with_state (λ s1. read_text p fs s1.context_name (store_named p fs c x update type))) s
          (fail-Told p ErrorCode.invalid_request s)
          (read_text-Told s.context_name (store_named p fs c x update type)
            (λ name s1. after p (on_store p fs c (store_op p fs c update _)) _ s1 (λ t s2. tt)) s)

    init-Told : (x : p.Content) (update : Bool) → Tells (init_configuration_request p fs c x update)
    unfolding init_configuration_request
    init-Told x update s =
        read_text-Told s.context_type (init_typed p fs c x update) (typed-Told x update) s

    schema-Told : (x : p.Content) (id : SchemaId) → Tells (load_schema p fs c x id)
    unfolding load_schema
    schema-Told x id =
        all_true-Told
          (init_root_object p fs
            ∷ init_content_schema_automaton p fs c id
            ∷ c.execute_content_schema_automaton x
            ∷ [])
          (root_object-Told, (automaton-Told id, (e.executes x, tt)))

    content-Told : (x : p.Content) → Tells (load_content p fs c x)
    unfolding load_content
    content-Told x s =
        read_text-Told s.context_type _
          (λ type. schema-Told x (get_schema_id type s.method_id (c.root_element s.world))) s

    pub load_configuration_request-Told :
        (x : p.Content) → Tells (load_configuration_request p fs c x)
    unfolding load_configuration_request
    load_configuration_request-Told x =
        all_true-Told (init_configuration_request p fs c x false ∷ load_content p fs c x ∷ [])
          (init-Told x false, (content-Told x, tt))

    exclusive-Told : (x : p.Content) (b : Bool) → Tells (run_exclusive p fs c x b)
    unfolding run_exclusive
    exclusive-Told x false s = e.executes x s
    exclusive-Told x true s =
        fail-Told p ErrorCode.service_need_exclusive_access
          (record s { request_type = interrupted_load_configuration_request })

    update_content-Told :
        (x : p.Content) (b : Bool) (id : SchemaId) → Tells (update_content p fs c x b id)
    unfolding update_content
    update_content-Told x false id = content-Told x
    update_content-Told x true id =
        all_true-Told
          (init_content_schema_automaton p fs c id
            ∷ with_state (λ s. run_exclusive p fs c x (c.has_exclusive_access s.world))
            ∷ [])
          (automaton-Told id, ((λ s. exclusive-Told x (c.has_exclusive_access s.world) s), tt))

    update_loaded-Told : (x : p.Content) → Tells (update_loaded p fs c x)
    unfolding update_loaded
    update_loaded-Told x s =
        read_text-Told s.context_type _
          (λ type.
            update_content-Told x (c.has_automaton (type, codes "PUT") s.world) (type, codes "PUT"))
          s

    pub update_configuration_request-Told :
        (x : p.Content) → Tells (update_configuration_request p fs c x)
    unfolding update_configuration_request
    update_configuration_request-Told x =
        all_true-Told (init_configuration_request p fs c x true ∷ update_loaded p fs c x ∷ [])
          (init-Told x true, (update_loaded-Told x, tt))

    pub load_main_configuration-Told : (x : p.Content) → Tells (load_main_configuration p fs c x)
    unfolding load_main_configuration
    load_main_configuration-Told x =
        all_true-Told
          (init_empty_object p fs
            ∷ init_content_schema_automaton p fs c ([], root_context_name)
            ∷ c.execute_content_schema_automaton x
            ∷ [])
          (empty_object-Told, (automaton-Told ([], root_context_name), (e.executes x, tt)))

    pub load_embedded_configuration-Told :
        (x : p.Content) → Tells (load_embedded_configuration p fs c x)
    unfolding load_embedded_configuration embedded_automaton
    load_embedded_configuration-Told x =
        all_true-Told
          (init_root_object p fs
            ∷ with_state (λ s. read_text p fs s.context_type (embedded_automaton p fs c))
            ∷ c.execute_content_schema_automaton x
            ∷ [])
          (
            root_object-Told,
            (
              (λ s.
                  read_text-Told s.context_type (embedded_automaton p fs c)
                    (λ type. automaton-Told (get_schema_id type put type)) s),
              (e.executes x, tt),
            ),
          )
