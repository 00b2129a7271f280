-- ===== src/Request/Configure/Pending.antt =====
-- A request that loads or updates a configuration, before it is committed
-- (src/webrequest/webRequestContext_config.cpp, src/webrequest/configurationHandler.cpp).
use strus_bindings.Base.{
  ℕ, ◌≡◌, refl, sym, subst, Bool, true, false, Option, none, some, List, [], ◌∷◌, if◌then◌else◌,
  Bytes, codes, eq_bytes,
}
use strus_bindings.Base.Action.{
  ◌>>=◌, return, modify, with_state, go_on, Ends, Ends-bind, Ends-mono, Leaves,
}
use strus_bindings.Base.Result.{Result, ok, err}
use strus_bindings.Config.ContextMap.{ContextNameMap}
use strus_bindings.Config.Handler.{
  FileSystem, ConfigurationDescription, describe, ConfigurationTransaction, Failure,
}
use strus_bindings.Config.Prepared.{
  HasMap, Prepared, store_configuration-Prepared, store_configuration_replace-Prepared,
}
use strus_bindings.Config.Storage.{World}
use strus_bindings.WebRequest.ErrorCode.{PapugaError, ErrorCode, papuga_error_to_error_code}
use strus_bindings.Request.State.{
  interrupted_load_configuration_request, Exception, Papuga, root_context_name, Request, Step,
  set_answer, fail, reset_transaction, method_id_name,
}
use strus_bindings.Request.Object.{create_context, inherit_from}
use strus_bindings.Request.Configure.{
  SchemaId, get_schema_id, Schemas, all_true, read_text, created, init_empty_object, root_inherited,
  inherit_root, init_root_object, after_store, on_store, use_automaton,
  init_content_schema_automaton, store_op, store_description, store_named, init_typed,
  init_configuration_request, load_schema, load_content, load_configuration_request, run_exclusive,
  update_content, update_loaded, update_configuration_request,
}

module _ (p : Papuga) (fs : FileSystem) (m : ContextNameMap) where
  -- The map of contexts is the given one, and this is the transaction of the request.
  abbrev pub Has : Option ConfigurationTransaction → Request p → Type 0
  Has t s = (s.config_transaction ≡ t) × (s.config.context_name_map ≡ m)

  abbrev pub Keeps : Step p Bool → Type 0
  Keeps f = (t : Option ConfigurationTransaction) (s : Request p) → Has t s → Leaves (Has t) (f s)

  abbrev pub AllKeep : List (Step p Bool) → Type 0
  AllKeep [] = Unit
  AllKeep (f ∷ fs) = Keeps f × AllKeep fs

  if-Keeps : (b : Bool) (f : Step p Bool) → Keeps f → Keeps (λ s. (if b then f else return false) s)
  if-Keeps true f k t s h = k t s h
  if-Keeps false f k t s h = h

  all_true-Keeps : (ms : List (Step p Bool)) → AllKeep ms → Keeps (all_true p fs ms)
  unfolding all_true
  all_true-Keeps [] k t s h = h
  all_true-Keeps (f ∷ ms) k t s h =
      Ends-bind (λ _. Has t) (λ _. Has t) (λ _. Has t) (f s)
        (λ b. if b then all_true p fs ms else return false) (k.0 t s h)
        (λ b s1 h1. if-Keeps b (all_true p fs ms) (all_true-Keeps ms k.1) t s1 h1)

  fail-Keeps : (e : ErrorCode) → Keeps (fail p e)
  unfolding fail set_answer
  fail-Keeps e t s h = h

  read_text-Keeps :
      (o : Option Bytes) (f : Bytes → Step p Bool)
      → ((b : Bytes) → Keeps (f b))
      → Keeps (read_text p fs o f)
  unfolding read_text
  read_text-Keeps none f k t s h = h
  read_text-Keeps (some b) f k t s h = k b t s h

  created-Keeps : (o : Option ℕ) → Keeps (created p fs o)
  unfolding created
  created-Keeps none = fail-Keeps ErrorCode.out_of_mem
  created-Keeps (some c) = λ t s h. h

  empty_object-Keeps : Keeps (init_empty_object p fs)
  unfolding init_empty_object reset_transaction create_context
  empty_object-Keeps t s h = created-Keeps (p.create s.world).0 t _ h

  inherited-Keeps : (e : Option PapugaError) → Keeps (root_inherited p fs e)
  unfolding root_inherited
  inherited-Keeps none = λ t s h. h
  inherited-Keeps (some e) = fail-Keeps (papuga_error_to_error_code e)

  inherit_root-Keeps : (o : Option ℕ) → Keeps (inherit_root p fs o)
  unfolding inherit_root inherit_from
  inherit_root-Keeps none t s h = h
  inherit_root-Keeps (some c) t s h =
      inherited-Keeps (p.inherit c root_context_name root_context_name s.world).0 t _ h

  root_object-Keeps : Keeps (init_root_object p fs)
  unfolding init_root_object
  root_object-Keeps =
      all_true-Keeps (init_empty_object p fs ∷ with_state (λ s. inherit_root p fs s.context) ∷ [])
        (empty_object-Keeps, ((λ t s h. inherit_root-Keeps s.context t s h), tt))

  module _ (c : Schemas p fs)
      (executes : (x : p.Content) → Keeps (c.execute_content_schema_automaton x)) where
    use-Keeps : (id : SchemaId) (found : Bool) → Keeps (use_automaton p fs c id found)
    unfolding use_automaton
    use-Keeps id false t s h = fail-Keeps ErrorCode.request_resolve_error t s h
    use-Keeps id true t s h = h

    automaton-Keeps : (id : SchemaId) → Keeps (init_content_schema_automaton p fs c id)
    unfolding init_content_schema_automaton
    automaton-Keeps id t s h = use-Keeps id (c.has_automaton id s.world) t s h

    load_schema-Keeps : (x : p.Content) (id : SchemaId) → Keeps (load_schema p fs c x id)
    unfolding load_schema
    load_schema-Keeps x id =
        all_true-Keeps
          (init_root_object p fs
            ∷ init_content_schema_automaton p fs c id
            ∷ c.execute_content_schema_automaton x
            ∷ [])
          (root_object-Keeps, (automaton-Keeps id, (executes x, tt)))

    load_content-Keeps : (x : p.Content) → Keeps (load_content p fs c x)
    unfolding load_content
    load_content-Keeps x t s h =
        read_text-Keeps s.context_type
          (λ type. load_schema p fs c x (get_schema_id type s.method_id (c.root_element s.world)))
          (λ type. load_schema-Keeps x (get_schema_id type s.method_id (c.root_element s.world))) t
          s h

    exclusive-Keeps : (x : p.Content) (b : Bool) → Keeps (run_exclusive p fs c x b)
    unfolding run_exclusive
    exclusive-Keeps x false t s h = executes x t s h
    exclusive-Keeps x true t s h =
        fail-Keeps ErrorCode.service_need_exclusive_access t
          (record s { request_type = interrupted_load_configuration_request }) h

    update_content-Keeps :
        (x : p.Content) (b : Bool) (id : SchemaId) → Keeps (update_content p fs c x b id)
    unfolding update_content
    update_content-Keeps x false id = load_content-Keeps x
    update_content-Keeps x true id =
        all_true-Keeps
          (init_content_schema_automaton p fs c id
            ∷ with_state (λ s. run_exclusive p fs c x (c.has_exclusive_access s.world))
            ∷ [])
          (
            automaton-Keeps id,
            ((λ t s h. exclusive-Keeps x (c.has_exclusive_access s.world) t s h), tt),
          )

    update_loaded-Keeps : (x : p.Content) → Keeps (update_loaded p fs c x)
    unfolding update_loaded
    update_loaded-Keeps x t s h =
        read_text-Keeps s.context_type
          (λ type.
            update_content p fs c x (c.has_automaton (type, codes "PUT") s.world)
              (type, codes "PUT"))
          (λ type.
            update_content-Keeps x (c.has_automaton (type, codes "PUT") s.world)
              (type, codes "PUT"))
          t s h

    -- The map is the given one, and a success has a transaction for the context.
    abbrev pub Pending : (type name : Bytes) → Bool → Request p → Type 0
    Pending type name false s = s.config.context_name_map ≡ m
    Pending type name true s =
        (t : ConfigurationTransaction) × (t.type ≡ type) × (t.name ≡ name) × Has (some t) s

    abbrev pub Unchanged : Exception → Request p → Type 0
    Unchanged e s = s.config.context_name_map ≡ m

    store_op-Prepared :
        (update : Bool) (d : ConfigurationDescription) (w : World fs)
        → HasMap fs m w
        → Ends (Prepared fs m d) (λ _. HasMap fs m) (store_op p fs c update d w)
    unfolding store_op
    store_op-Prepared true d w h = store_configuration_replace-Prepared fs m c.timebuf d w h
    store_op-Prepared false d w h = store_configuration-Prepared fs m c.timebuf d w h

    stored-Pending :
        (d : ConfigurationDescription) (r : Result Failure ConfigurationTransaction × World fs)
        (s : Request p)
        → Ends (Prepared fs m d) (λ _. HasMap fs m) r
        → Ends (Pending d.type d.name) Unchanged (
            go_on
              (λ t.
                ◌>>=◌ (modify (λ s1. record s1 { config_transaction = some t })) (λ _. return true))
              (after_store p fs c r s))
    unfolding after_store
    stored-Pending d (ok t, w) s h = (t, h.0, h.1, (refl, h.2))
    stored-Pending d (err e, w) s h = h

    typed-Pending :
        (x : p.Content) (update : Bool) (type name : Bytes) (s : Request p)
        → s.context_name ≡ some name
        → s.config.context_name_map ≡ m
        → Ends (Pending type name) Unchanged (init_typed p fs c x update type s)
    unfolding init_typed store_named store_description on_store read_text fail set_answer describe
    typed-Pending x update type name s e h = by_test (eq_bytes type root_context_name)
      where
        by_test :
            (b : Bool)
            → Ends (Pending type name) Unchanged (
                (if b then fail p ErrorCode.invalid_request else (λ s1.
                    read_text p fs s1.context_name (store_named p fs c x update type) s1))
                  s)
        by_test true = h
        by_test false =
            subst
              (λ o.
                Ends (Pending type name) Unchanged
                  (read_text p fs o (store_named p fs c x update type) s))
              (sym e)
              (stored-Pending (describe type name (method_id_name s.method_id) (c.content_text x)) _
                s
                (store_op-Prepared update
                  (describe type name (method_id_name s.method_id) (c.content_text x))
                  (record { handler = s.config; store = c.store_of s.world }) h))

    init-Pending :
        (x : p.Content) (update : Bool) (type name : Bytes) (s : Request p)
        → s.context_type ≡ some type
        → s.context_name ≡ some name
        → s.config.context_name_map ≡ m
        → Ends (Pending type name) Unchanged (init_configuration_request p fs c x update s)
    unfolding init_configuration_request read_text
    init-Pending x update type name s e n h =
        subst
          (λ o.
            Ends (Pending type name) Unchanged (read_text p fs o (init_typed p fs c x update) s))
          (sym e) (typed-Pending x update type name s n h)

    -- what comes after the storing of the description
    rest-Pending :
        (type name : Bytes) (f : Step p Bool) (b : Bool) (s : Request p)
        → Keeps f
        → Pending type name b s
        → Ends
            (Pending type name)
            Unchanged
            ((if b then all_true p fs (f ∷ []) else return false) s)
    unfolding all_true
    rest-Pending type name f false s k h = h
    rest-Pending type name f true s k (t, e, n, h) =
        Ends-mono (λ _. Has (some t)) (Pending type name) (λ _. Has (some t)) Unchanged
          (all_true p fs (f ∷ []) s) finish (λ _ _ h1. h1.1)
          (all_true-Keeps (f ∷ []) (k, tt) (some t) s h)
      where
        finish : (b : Bool) (s1 : Request p) → Has (some t) s1 → Pending type name b s1
        finish true s1 h1 = (t, e, n, h1)
        finish false s1 h1 = h1.1

    request-Pending :
        (x : p.Content) (update : Bool) (f : Step p Bool) (type name : Bytes) (s : Request p)
        → Keeps f
        → s.context_type ≡ some type
        → s.context_name ≡ some name
        → s.config.context_name_map ≡ m
        → Ends
            (Pending type name)
            Unchanged
            (all_true p fs (init_configuration_request p fs c x update ∷ f ∷ []) s)
    unfolding all_true
    request-Pending x update f type name s k e n h =
        Ends-bind (Pending type name) (Pending type name) Unchanged
          (init_configuration_request p fs c x update s)
          (λ b. if b then all_true p fs (f ∷ []) else return false)
          (init-Pending x update type name s e n h) (λ b s1 h1. rest-Pending type name f b s1 k h1)

    -- A request that loads or updates a configuration does not touch the map of contexts, whether
    -- it succeeds, fails or throws, if the execution of a schema leaves the map and the
    -- transaction of the request alone; if it returns true, then the request has a transaction to
    -- commit, for the type and the name of its context.
    pub configuration_requests-Pending :
        (x : p.Content) (type name : Bytes) (s : Request p)
        → s.context_type ≡ some type
        → s.context_name ≡ some name
        → s.config.context_name_map ≡ m
        → Ends (Pending type name) Unchanged (load_configuration_request p fs c x s)
          × Ends (Pending type name) Unchanged (update_configuration_request p fs c x s)
    unfolding load_configuration_request update_configuration_request
    configuration_requests-Pending x type name s e n h = (
      request-Pending x false (load_content p fs c x) type name s (load_content-Keeps x) e n h,
      request-Pending x true (update_loaded p fs c x) type name s (update_loaded-Keeps x) e n h,
    )
