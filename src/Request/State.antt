-- ===== src/Request/State.antt =====
-- The state of a request (src/webrequest/webRequestContext.hpp), with the pool of transactions, the
-- map of contexts and papuga, whose functions are a parameter.
use strus_bindings.Base.{
  ℕ, Bool, true, false, Option, none, some, List, [], ◌∷◌, if◌then◌else◌, Bytes, codes, eq_bytes,
}
use strus_bindings.Base.Action.{Action}
use strus_bindings.Base.Result.{Result, ok, err}
use strus_bindings.Config.Handler.{ConfigurationTransaction, Handler}
use strus_bindings.Transaction.Pool.{Error, out_of_memory, undefined_behaviour, Transaction, Pool}
use strus_bindings.Transaction.Operations.{drop_transaction}
use strus_bindings.WebRequest.ErrorCode.{PapugaError, ErrorCode, error_code_to_http_status}
use strus_bindings.WebRequest.PathBuf.{PathBuf, get_next}

pub data RequestType : Type 0 where
  undefined_request schema_description_request method_options_request load_main_configuration :
      RequestType
  load_embedded_configuration object_request interrupted_load_configuration_request : RequestType

pub data MethodId : Type 0 where
  undefined get put post patch delete options head : MethodId

-- `methodIdName`, where `NULL` is the empty text
unfoldable pub method_id_name : MethodId → Bytes
method_id_name undefined = []
method_id_name get = codes "GET"
method_id_name put = codes "PUT"
method_id_name post = codes "POST"
method_id_name patch = codes "PATCH"
method_id_name delete = codes "DELETE"
method_id_name options = codes "OPTIONS"
method_id_name head = codes "HEAD"

-- the names of `g_methodNameAr`, in its order
abbrev pub method_ids : List MethodId
method_ids = get ∷ put ∷ post ∷ patch ∷ delete ∷ options ∷ head ∷ []

unfoldable pub find_method : Bytes → List MethodId → MethodId
unfolding method_id_name
find_method name [] = undefined
find_method name (m ∷ ms) = if eq_bytes name (method_id_name m) then m else find_method name ms

unfoldable pub method_id_from_name : Bytes → MethodId
unfolding find_method
method_id_from_name name = find_method name method_ids

-- `undefined_behaviour` of the pool is none of the exceptions of the source.
pub data Exception : Type 0 where
  bad_alloc runtime_error uncaught no_behaviour : Exception

unfoldable pub to_exception : Error → Exception
to_exception out_of_memory = bad_alloc
to_exception undefined_behaviour = no_behaviour
to_exception e = runtime_error

-- `WebRequestAnswer`, as far as the state of a request needs it
pub record Answer : Type 0 where
  pub http_status : ℕ
  pub error : Option ErrorCode
  pub content : Bytes

unfoldable pub empty_answer : Answer
empty_answer = record { http_status = 200; error = none; content = [] }

pub record Papuga : Type 1 where
  pub World : Type 0
  pub Obj : Type 0
  pub Method : Type 0
  pub Content : Type 0
  pub Value : Type 0
  pub create : World → Option ℕ × World
  pub inherit : (context : ℕ) → (type name : Bytes) → World → Option PapugaError × World
  pub get_variable : (context : ℕ) → (name : Bytes) → World → Option Obj
  pub list_variables : (context : ℕ) → World → Option (List Bytes)
  pub class_id : Obj → Option ℕ
  pub get_method : (class_id : ℕ) → (method : Bytes) → (has_content : Bool) → World → Option Method
  pub is_empty_content : Content → Bool
  pub empty_content : Content

-- `ROOT_CONTEXT_NAME`
abbrev pub root_context_name : Bytes
root_context_name = codes "context"

module _ (p : Papuga) where
  -- `pooled` says whether the pool has the transaction of `transaction_ref` too.
  pub record Request : Type 0 where
    pub world : p.World
    pub pool : Pool ℕ
    pub config : Handler
    pub request_type : RequestType
    pub method_id : MethodId
    pub context_type : Option Bytes
    pub context_name : Option Bytes
    pub path : PathBuf
    pub context : Option ℕ
    pub obj : Option p.Obj
    pub transaction_ref : Option (Transaction ℕ)
    pub pooled : Bool
    pub config_transaction : Option ConfigurationTransaction
    pub answer : Answer

  abbrev pub Step : Type 0 → Type 0
  Step A = Action Request Exception A

  unfoldable pub set_answer : ErrorCode → Step Unit
  unfolding error_code_to_http_status
  set_answer e s = (
    ok tt,
    record s {
      answer = record s.answer { http_status = error_code_to_http_status e; error = some e };
    },
  )

  -- `setAnswer(e); return false;`
  unfoldable pub fail : ErrorCode → Step Bool
  unfolding set_answer
  fail e s = (ok false, (set_answer e s).1)

  -- `WebRequestAnswer::setHttpStatus`
  unfoldable pub set_http_status : ℕ → Step Unit
  set_http_status n s =
      (ok tt, record s { answer = record s.answer { http_status = n; error = none } })

  unfoldable pub next_name : Step (Option Bytes)
  unfolding get_next
  next_name s = (ok (get_next s.path).0, record s { path = (get_next s.path).1 })

  unfoldable pub after_pool : {A : Type 0} → Result Error A × Pool ℕ → Step A
  unfolding to_exception
  after_pool (ok a, q) s = (ok a, record s { pool = q })
  after_pool (err e, q) s = (err (to_exception e), record s { pool = q })

  unfoldable pub of_pool : {A : Type 0} → (Pool ℕ → Result Error A × Pool ℕ) → Step A
  unfolding after_pool
  of_pool f s = after_pool (f s.pool) s

  -- `m_transactionRef.reset()`: the destructor of a transaction runs if no one else has it
  unfoldable pub release : Option (Transaction ℕ) → (pooled : Bool) → Pool ℕ → Pool ℕ
  unfolding drop_transaction
  release none pooled q = q
  release (some tr) true q = q
  release (some tr) false q = drop_transaction tr q

  unfoldable pub reset_transaction : Step Unit
  unfolding release
  reset_transaction s = (
    ok tt,
    record s {
      pool = release s.transaction_ref s.pooled s.pool;
      transaction_ref = none;
      pooled = false;
    },
  )

  unfoldable pub reset_request_object : Step Unit
  unfolding reset_transaction
  reset_request_object s = (ok tt, record ((reset_transaction s).1) { context = none; obj = none })
