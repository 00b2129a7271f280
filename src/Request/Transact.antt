-- ===== src/Request/Transact.antt =====
-- The calls of methods and the transactions of a request: src/webrequest/webRequestContext_method.cpp
-- and src/webrequest/webRequestContext_obj.cpp.
use strus_bindings.Base.{
  ℕ, Bool, true, false, Option, none, some, List, [], ◌∷◌, ◌++◌, Bytes, codes,
}
use strus_bindings.Base.Int.{ℤ}
use strus_bindings.Base.Action.{◌>>=◌, return, with_state}
use strus_bindings.Transaction.Operations.{create_transaction}
use strus_bindings.WebRequest.ErrorCode.{ErrorCode}
use strus_bindings.Request.State.{Papuga, Step, fail, set_http_status, of_pool, reset_transaction}

module _ (p : Papuga) where
  open p use {Obj, Content}

  -- the code of an error, or the values with the status of the answer
  pub data CallResult : Type 0 where
    failed : ErrorCode → CallResult
    returned : List p.Value → (http_status : ℕ) → CallResult

  -- What other parts of the service do for a request: calls of methods, links in answers, and the
  -- pool's clock, generator and memory.
  pub record Calls : Type 0 where
    pub call_method : Obj → p.Method → (path : Bytes) → Content → Step p CallResult
    pub define_variable : (context : ℕ) → (name : Bytes) → p.Value → Step p Bool
    pub call_to_answer : Obj → p.Method → (path : Bytes) → Content → Step p Bool
    pub set_answer_link : (title : Bytes) → (id : Bytes) → (level : ℕ) → Step p Bool
    pub max_idle_time : ℤ
    pub address : ℕ → ℕ
    pub memory : Bool

  module _ (calls : Calls) where
    unfoldable pub defined : (http_status : ℕ) → (defined : Bool) → Step p Bool
    unfolding set_http_status
    defined status false = return false
    defined status true = do _ ← set_http_status p status; return true

    unfoldable pub to_variable : (context : ℕ) → (name : Bytes) → CallResult → Step p Bool
    unfolding fail defined
    to_variable c name (failed e) = fail p e
    to_variable c name (returned [] status) = fail p ErrorCode.runtime_error
    to_variable c name (returned (v ∷ []) status) = do
      b ← calls.define_variable c name v
      defined status b
    to_variable c name (returned (v ∷ w ∷ vs) status) = fail p ErrorCode.runtime_error

    -- `callHostObjMethodToVariable`
    unfoldable pub call_to_variable : Obj → p.Method → (context : ℕ) → (name : Bytes) → Step p Bool
    unfolding to_variable
    call_to_variable o m c name = do
      r ← calls.call_method o m [] p.empty_content
      to_variable c name r

    unfoldable pub answer_transaction : (tid : Bytes) → Step p Bool
    unfolding set_http_status fail
    answer_transaction [] = fail p ErrorCode.out_of_mem
    answer_transaction (c ∷ cs) = do
      _ ← set_http_status p 201
      calls.set_answer_link (codes "transaction") (c ∷ cs) 3

    -- `callHostObjMethodToVariable` has put the object of the transaction in the context
    unfoldable pub store_transaction :
        (context : ℕ) → (context_type : Bytes) → (called : Bool) → Step p Bool
    unfolding of_pool answer_transaction
    store_transaction c type false = return false
    store_transaction c type true = do
      tid ← of_pool p (
          create_transaction (codes "transaction/" ++ type) c calls.max_idle_time calls.address
            calls.memory)
      answer_transaction tid

    unfoldable pub post_by :
        Obj → Option p.Method → (context : ℕ) → (context_type : Bytes) → Step p Bool
    unfolding store_transaction call_to_variable fail
    post_by o none c type = fail p ErrorCode.request_resolve_error
    post_by o (some m) c type = do
      called ← call_to_variable o m c (codes "transaction")
      store_transaction c type called

    unfoldable pub post_class :
        Obj → Option ℕ → (context : ℕ) → (context_type : Bytes) → Step p Bool
    unfolding post_by fail
    post_class o none c type = fail p ErrorCode.logic_error
    post_class o (some class) c type =
        with_state
          (λ s. post_by o (p.get_method class (codes "POST/transaction") false s.world) c type)

    -- the request has a context with a type
    unfoldable pub execute_post_transaction :
        Obj → (context : ℕ) → (context_type : Bytes) → Step p Bool
    unfolding post_class
    execute_post_transaction o = post_class o (p.class_id o)

    unfoldable pub commit_by : Obj → Option p.Method → Step p Bool
    unfolding reset_transaction fail
    commit_by o none = fail p ErrorCode.request_resolve_error
    commit_by o (some m) = do
      called ← calls.call_to_answer o m [] p.empty_content
      _ ← reset_transaction p
      return called

    unfoldable pub commit_class : Obj → Option ℕ → Step p Bool
    unfolding commit_by fail
    commit_class o none = fail p ErrorCode.request_resolve_error
    commit_class o (some class) =
        with_state (λ s. commit_by o (p.get_method class (codes "PUT/transaction") false s.world))

    unfoldable pub commit_object : Option Obj → Step p Bool
    unfolding commit_class fail
    commit_object none = fail p ErrorCode.request_resolve_error
    commit_object (some o) = commit_class o (p.class_id o)

    unfoldable pub execute_commit_transaction : Step p Bool
    unfolding commit_object
    execute_commit_transaction = with_state (λ s. commit_object s.obj)
