-- ===== src/Request/Configure/Deletes.antt =====
-- The answers of requests that delete configurations, and of all requests with those for
-- configurations among them (src/webrequest/webRequestContext_config.cpp,
-- src/webrequest/webRequestContext.cpp).
use strus_bindings.Base.{ℕ, ◌≡◌, ◌≢◌, Bool, true, false, List, [], ◌∷◌, Bytes, eq_bytes}
use strus_bindings.Base.Action.{◌>>=◌, with_state, Ends}
use strus_bindings.Config.Handler.{FileSystem, ConfigurationDescription}
use strus_bindings.Config.Storage.{
  get_stored_configuration_file, get_stored_configuration_from_file, delete_stored_configuration,
}
use strus_bindings.WebRequest.ErrorCode.{ErrorCode}
use strus_bindings.Request.State.{
  schema_description_request, no_behaviour, Papuga, root_context_name, Request, Step, fail,
  set_http_status,
}
use strus_bindings.Request.Transact.{Calls}
use strus_bindings.Request.Execute.{Handlers}
use strus_bindings.Request.Complete.{execute}
use strus_bindings.Request.Explained.{Told, Any, after, fail-Told, if-Told}
use strus_bindings.Request.Explained.Execute.{AllExplain}
use strus_bindings.Request.Explained.Whole.{execute-Explains}
use strus_bindings.Request.Configure.{
  SchemaId, Schemas, all_true, init_root_object, on_store, init_content_schema_automaton,
  update_configuration_request_retry, read_text,
}
use strus_bindings.Request.Configure.Removal.{
  get_schema_id_delete_configuration, is_valid, run_delete_schema, delete_stored,
  delete_description, delete_file, delete_named, delete_typed, delete_configuration_request,
  with_configurations,
}
use strus_bindings.Request.Configure.Answers.{
  Tells, SchemasTell, all_true-Told, read_text-Told, root_object-Told, automaton-Told,
  load_configuration_request-Told, update_configuration_request-Told, load_main_configuration-Told,
  load_embedded_configuration-Told,
}

module _ (p : Papuga) (fs : FileSystem) (c : Schemas p fs) (e : SchemasTell p fs c) where
  run-Told :
      (d : ConfigurationDescription) (id : SchemaId) (b : Bool)
      → Tells p fs (run_delete_schema p fs c d id b)
  unfolding run_delete_schema
  run-Told d id false s = tt
  run-Told d id true s =
      all_true-Told p fs
        (c.init_content_type (c.to_content d)
          ∷ init_content_schema_automaton p fs c id
          ∷ c.execute_content_schema_automaton (c.to_content d)
          ∷ [])
        (e.types (c.to_content d), (automaton-Told p fs c e id, (e.executes (c.to_content d), tt)))
        s

  stored-Told : (d : ConfigurationDescription) → Tells p fs (delete_stored p fs c d)
  unfolding delete_stored set_http_status
  stored-Told d s =
      after p (on_store p fs c (delete_stored_configuration fs d.type d.name)) _ s (λ _ s1. tt)

  description-Told :
      (type : Bytes) (d : ConfigurationDescription) → Tells p fs (delete_description p fs c type d)
  unfolding delete_description
  description-Told type d s =
      let id = get_schema_id_delete_configuration type d.method in
      let steps : List (Step p Bool) =
        init_root_object p fs
        ∷ with_state (λ s. run_delete_schema p fs c d id (c.has_automaton id s.world))
        ∷ delete_stored p fs c d
        ∷ [] in
      if-Told p (is_valid d) (all_true p fs steps) (fail p ErrorCode.request_resolve_error) s
        (all_true-Told p fs steps
          (
            root_object-Told p fs,
            ((λ s1. run-Told d id (c.has_automaton id s1.world) s1), (stored-Told d, tt)),
          )
          s)
        (fail-Told p ErrorCode.request_resolve_error s)

  file-Told : (type file : Bytes) → Tells p fs (delete_file p fs c type file)
  unfolding delete_file
  file-Told type [] s = fail-Told p ErrorCode.request_resolve_error s
  file-Told type (b ∷ bs) s =
      after p (on_store p fs c (get_stored_configuration_from_file fs (b ∷ bs)))
        (delete_description p fs c type) s (description-Told type)

  named-Told : (type name : Bytes) → Tells p fs (delete_named p fs c type name)
  unfolding delete_named
  named-Told type name =
      let file = on_store p fs c (get_stored_configuration_file fs type name) in
      all_true-Told p fs (c.remove_context type name ∷ ◌>>=◌ file (delete_file p fs c type) ∷ []) (
        e.removes type name,
        ((λ s. after p file (delete_file p fs c type) s (file-Told type)), tt),
      )

  typed-Told : (type : Bytes) → Tells p fs (delete_typed p fs c type)
  unfolding delete_typed
  typed-Told type s =
      if-Told p (eq_bytes type root_context_name) (fail p ErrorCode.invalid_request)
        (with_state (λ s1. read_text p fs s1.context_name (delete_named p fs c type))) s
        (fail-Told p ErrorCode.invalid_request s)
        (read_text-Told p fs s.context_name (delete_named p fs c type) (named-Told type) s)

  delete-Told : Tells p fs (delete_configuration_request p fs c)
  unfolding delete_configuration_request
  delete-Told s = read_text-Told p fs s.context_type (delete_typed p fs c) typed-Told s

  module _ (calls : Calls p) (h : Handlers p) where
    -- Methods, schemas and printed answers explain their failures, and papuga can define variables.
    pub record OthersExplain : Type 0 where
      pub defines :
          (n : ℕ) (name : Bytes) (v : p.Value) (s : Request p)
          → Ends (λ b _. b ≡ true) (Any p) (calls.define_variable n name v s)
      pub calls_to_answer :
          (o : p.Obj) (m : p.Method) (path : Bytes) (x : p.Content)
          → Tells p fs (calls.call_to_answer o m path x)
      pub links : (title id : Bytes) (level : ℕ) → Tells p fs (calls.set_answer_link title id level)
      pub descriptions : Tells p fs h.execute_schema_description
      pub options : Tells p fs h.execute_options
      pub schemas : (x : p.Content) → Tells p fs (h.execute_schema x)
      pub variables : Tells p fs h.execute_list_variables
      pub names : (ns : List Bytes) → Tells p fs (h.answer_names ns)
      pub values : (o : p.Obj) → Tells p fs (h.answer_value o)

    all_explain : OthersExplain → AllExplain p calls (with_configurations p fs c h)
    unfolding with_configurations update_configuration_request_retry
    all_explain o = record {
      defines = o.defines;
      calls_to_answer = o.calls_to_answer;
      links = o.links;
      loads = load_configuration_request-Told p fs c e;
      updates = update_configuration_request-Told p fs c e;
      retries = e.executes;
      deletes = delete-Told;
      main = load_main_configuration-Told p fs c e;
      embedded = load_embedded_configuration-Told p fs c e;
      types = e.types;
      descriptions = o.descriptions;
      options = o.options;
      schemas = o.schemas;
      variables = o.variables;
      names = o.names;
      values = o.values;
    }

    -- If the content type, schemas, methods and the printing of answers return false only with an
    -- error in the answer and papuga can define variables, then `execute`, with the requests for
    -- configurations, returns false only with an error too, whatever the method, the path and the
    -- content of the request are and whatever its type is but a description of a schema, and it
    -- throws only where the source has no defined behaviour.
    pub execute-with_configurations-Explains :
        (o : OthersExplain) (x : p.Content) (s : Request p)
        → s.request_type ≢ schema_description_request
        → Ends
            (Told p)
            (λ r _. r ≡ no_behaviour)
            (execute p calls (with_configurations p fs c h) x s)
    execute-with_configurations-Explains o =
        execute-Explains p calls (with_configurations p fs c h) (all_explain o)
