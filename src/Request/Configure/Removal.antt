-- ===== src/Request/Configure/Removal.antt =====
-- The requests that delete configurations, and all requests for configurations among the parts of a
-- request: src/webrequest/webRequestContext_config.cpp.
use strus_bindings.Base.{
  Bool, true, false, not, is_empty, [], ◌∷◌, ◌++◌, if◌then◌else◌, take, Bytes, codes, eq_bytes,
}
use strus_bindings.Base.Action.{◌>>=◌, return, with_state}
use strus_bindings.Config.Handler.{FileSystem, ConfigurationDescription}
use strus_bindings.Config.Storage.{
  get_stored_configuration_file, get_stored_configuration_from_file, delete_stored_configuration,
}
use strus_bindings.WebRequest.ErrorCode.{ErrorCode}
use strus_bindings.Request.State.{Papuga, root_context_name, Step, fail, set_http_status}
use strus_bindings.Request.Execute.{Handlers}
use strus_bindings.Request.Configure.{
  SchemaId, Schemas, all_true, read_text, init_root_object, on_store, init_content_schema_automaton,
  load_configuration_request, update_configuration_request, update_configuration_request_retry,
  load_main_configuration, load_embedded_configuration,
}

-- the buffer of the name has 32 bytes
unfoldable pub get_schema_id_delete_configuration : (type create_method : Bytes) → SchemaId
get_schema_id_delete_configuration type m =
    (root_context_name, take 31 (codes "DELETE_" ++ m) ++ (47 ∷ type))

unfoldable pub is_valid : ConfigurationDescription → Bool
is_valid c = not (is_empty c.type)

module _ (p : Papuga) (fs : FileSystem) (c : Schemas p fs) where
  open p use {Content}

  unfoldable pub run_delete_schema :
      ConfigurationDescription → SchemaId → (found : Bool) → Step p Bool
  unfolding all_true init_content_schema_automaton
  run_delete_schema d id false = return true
  run_delete_schema d id true = all_true p fs (
      c.init_content_type (c.to_content d)
      ∷ init_content_schema_automaton p fs c id
      ∷ c.execute_content_schema_automaton (c.to_content d)
      ∷ [])

  unfoldable pub delete_stored : ConfigurationDescription → Step p Bool
  unfolding on_store set_http_status
  delete_stored d = do
    _ ← on_store p fs c (delete_stored_configuration fs d.type d.name)
    _ ← set_http_status p 204
    return true

  unfoldable pub delete_description : (type : Bytes) → ConfigurationDescription → Step p Bool
  unfolding all_true init_root_object run_delete_schema delete_stored is_valid
      get_schema_id_delete_configuration fail
  delete_description type d =
      let id = get_schema_id_delete_configuration type d.method in
      if is_valid d
      then all_true p fs (
          init_root_object p fs
          ∷ with_state (λ s. run_delete_schema d id (c.has_automaton id s.world))
          ∷ delete_stored d
          ∷ [])
      else fail p ErrorCode.request_resolve_error

  unfoldable pub delete_file : (type file : Bytes) → Step p Bool
  unfolding on_store delete_description fail
  delete_file type [] = fail p ErrorCode.request_resolve_error
  delete_file type (b ∷ bs) = do
    d ← on_store p fs c (get_stored_configuration_from_file fs (b ∷ bs))
    delete_description type d

  unfoldable pub delete_named : (type name : Bytes) → Step p Bool
  unfolding all_true on_store delete_file
  delete_named type name = all_true p fs (
      c.remove_context type name
      ∷ ◌>>=◌ (on_store p fs c (get_stored_configuration_file fs type name)) (delete_file type)
      ∷ [])

  unfoldable pub delete_typed : (type : Bytes) → Step p Bool
  unfolding fail read_text delete_named
  delete_typed type =
      if eq_bytes type root_context_name
      then fail p ErrorCode.invalid_request
      else with_state (λ s. read_text p fs s.context_name (delete_named type))

  unfoldable pub delete_configuration_request : Step p Bool
  unfolding read_text delete_typed
  delete_configuration_request = with_state (λ s. read_text p fs s.context_type delete_typed)

  -- the parts of a request with these requests among them
  unfoldable pub with_configurations : Handlers p → Handlers p
  unfolding load_configuration_request update_configuration_request
      update_configuration_request_retry delete_configuration_request load_main_configuration
      load_embedded_configuration
  with_configurations h = record h {
    load_configuration_request = load_configuration_request p fs c;
    update_configuration_request = update_configuration_request p fs c;
    update_configuration_request_retry = update_configuration_request_retry p fs c;
    delete_configuration_request = delete_configuration_request;
    load_main_configuration = load_main_configuration p fs c;
    load_embedded_configuration = load_embedded_configuration p fs c;
    init_content_type = c.init_content_type;
  }
