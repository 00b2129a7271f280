-- ===== src/Request/Complete.antt =====
-- `execute` and `complete` of src/webrequest/webRequestContext.cpp.
use strus_bindings.Base.{ℕ, Bool, true, false, Option, none, some, if◌then◌else◌}
use strus_bindings.Base.Action.{◌>>=◌, return, with_state, modify, catch}
use strus_bindings.Config.Handler.{ConfigurationTransaction}
use strus_bindings.Transaction.Pool.{Transaction}
use strus_bindings.Transaction.Operations.{return_transaction}
use strus_bindings.WebRequest.ErrorCode.{ErrorCode}
use strus_bindings.Request.State.{
  RequestType, undefined_request, schema_description_request, method_options_request,
  load_main_configuration, load_embedded_configuration, object_request,
  interrupted_load_configuration_request, Papuga, Step, fail, of_pool,
}
use strus_bindings.Request.Object.{init_request_object, init_schema_description_object}
use strus_bindings.Request.Transact.{Calls}
use strus_bindings.Request.Execute.{
  is_ok, Handlers, answer_exception, and_then, execute_object_request,
}

module _ (p : Papuga) (calls : Calls p) (h : Handlers p) where
  open p use {Content}

  unfoldable pub without_content : Content → Step p Bool → Step p Bool
  unfolding fail
  without_content content m =
      if p.is_empty_content content then m else fail p ErrorCode.invalid_argument

  unfoldable pub execute_type : Content → RequestType → Step p Bool
  unfolding and_then init_request_object init_schema_description_object without_content
      execute_object_request fail
  execute_type content undefined_request = fail p ErrorCode.incomplete_request
  execute_type content schema_description_request =
      and_then p calls h (h.init_content_type content) (
        and_then p calls h (init_schema_description_object p)
          (without_content content h.execute_schema_description))
  execute_type content method_options_request =
      and_then p calls h (h.init_content_type content)
        (and_then p calls h (init_request_object p) (without_content content h.execute_options))
  execute_type content load_main_configuration = h.load_main_configuration content
  execute_type content load_embedded_configuration = h.load_embedded_configuration content
  execute_type content object_request =
      and_then p calls h (h.init_content_type content)
        (and_then p calls h (init_request_object p) (execute_object_request p calls h content))
  execute_type content interrupted_load_configuration_request =
      h.update_configuration_request_retry content

  unfoldable pub execute : Content → Step p Bool
  unfolding execute_type answer_exception
  execute content =
      catch (with_state (λ s. execute_type content s.request_type)) (answer_exception p calls h)

  -- the transfer of a context that a configuration request has defined
  unfoldable pub transfer_if_defined : Option ConfigurationTransaction → Step p Bool
  transfer_if_defined none = return true
  transfer_if_defined (some t) = h.transfer_context

  unfoldable pub complete_result : Step p Bool
  unfolding and_then transfer_if_defined
  complete_result =
      and_then p calls h h.get_content_request_result
        (with_state (λ s. transfer_if_defined s.config_transaction))

  unfoldable pub complete_type : RequestType → Step p Bool
  unfolding complete_result fail
  complete_type undefined_request = fail p ErrorCode.incomplete_request
  complete_type schema_description_request = h.get_content_request_result
  complete_type method_options_request = h.get_content_request_result
  complete_type load_main_configuration = h.transfer_context
  complete_type load_embedded_configuration = h.transfer_context
  complete_type object_request = complete_result
  complete_type interrupted_load_configuration_request = complete_result

  unfoldable pub complete_if_ok : (is_ok : Bool) → Step p Bool
  unfolding complete_type
  complete_if_ok true = with_state (λ s. complete_type s.request_type)
  complete_if_ok false = return false

  -- the pool has the transaction from now on, and the request still refers to it
  unfoldable pub give_back : Option (Transaction ℕ) → Step p Unit
  unfolding of_pool
  give_back none = return tt
  give_back (some tr) = do
    _ ← of_pool p (return_transaction tr)
    modify (λ s. record s { pooled = true })

  unfoldable pub try_complete : Step p Bool
  unfolding complete_if_ok give_back is_ok
  try_complete = do
    rt ← with_state (λ s. complete_if_ok (is_ok s.answer.error))
    _ ← with_state (λ s. give_back s.transaction_ref)
    _ ← h.fetch_context_info_messages
    return rt

  unfoldable pub complete : Step p Bool
  unfolding try_complete answer_exception
  complete = catch try_complete (answer_exception p calls h)
