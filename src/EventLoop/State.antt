-- ===== src/EventLoop/State.antt =====
-- The state of the event loop (src/webrequest/curlEventLoop.cpp): `CurlEventLoop::Data`, without
-- the state of the log. What libcurl, the pipe and the called objects do is a parameter.
use strus_bindings.Base.{
  ℕ, ◌*◌, Bool, false, Option, none, some, List, [], ◌∷◌, ◌++◌, if◌then◌else◌, ltb, ◌==◌, Bytes,
}
use strus_bindings.Base.Action.{Action, return, throw}
use strus_bindings.Base.Result.{ok}
use strus_bindings.WebRequest.ErrorCode.{ErrorCode}
use strus_bindings.EventLoop.Message.{CurlMessage, CurlOption}

-- `out_of_fuel` is the model's own: a loop has not ended within its fuel.
pub data Exception : Type 0 where
  runtime_error : (what : Bytes) → Exception
  bad_alloc unexpected out_of_fuel : Exception

-- `WebRequestAnswer`, by the constructors that the event loop calls
pub data Answer : Type 0 where
  with_content : (http_status : ℕ) → (content : Bytes) → Answer
  with_error : (http_status : ℕ) → (error_code : ErrorCode) → (error_str : Option Bytes) → Answer

-- What happens between the loop and its callers, in its order: the calls of `send`, and what the
-- loop does to the receivers and the tickers.
pub data Event : Type 0 where
  sent : (receiver : ℕ) → Event
  put_answer : (receiver : ℕ) → Answer → Event
  delete : (receiver : ℕ) → Event
  call_ticker : (ticker : ℕ) → Event

-- a message of `curl_multi_info_read`
pub data CurlMsg : Type 0 where
  done : (easy_handle : ℕ) → (is_ok : Bool) → CurlMsg
  other_msg : CurlMsg

pub data Wait : Type 0 where
  notified timeout connection_event : Wait

-- libcurl, the pipe of the loop with itself, the receivers and the tickers. A call that may fail
-- gives the text of its error. Whether a receiver or a ticker throws may depend on what has
-- happened to it.
pub record Outside : Type 1 where
  pub World : Type 0
  pub globals_valid : Bool
  pub log_info : Bool
  pub easy_init : World → Bool × World
  pub easy_setopt : (handle : ℕ) → CurlOption → World → Option Bytes × World
  pub easy_cleanup : (handle : ℕ) → World → World
  pub open_log : World → Option Bytes × World
  pub add_handle : (handle : ℕ) → World → Option Bytes × World
  pub remove_handle : (handle : ℕ) → World → World
  pub perform : World → World
  pub info_read : World → Option CurlMsg × ℕ × World
  pub wait : World → Wait × World
  pub notify : World → World
  pub consume : World → Option Exception × World
  pub response_code : (handle : ℕ) → World → Option ℕ
  pub response_content : (handle : ℕ) → World → Bytes
  pub response_error : (handle : ℕ) → World → Option Bytes
  pub error_string : ErrorCode → Bytes
  pub answer_raises : List Event → Event → Option Exception

-- `WebRequestDelegateJob`
pub record Job : Type 0 where
  pub message : CurlMessage
  pub receiver : ℕ

abbrev pub job_handle : Job → ℕ
job_handle j = j.message.handle

-- `std::map<CURL*, WebRequestDelegateJobRef>`, as the list of its entries in their order
abbrev pub ActivatedMap : Type 0
ActivatedMap = List (ℕ × Job)

unfoldable pub find_job : ℕ → ActivatedMap → Option Job
find_job h [] = none
find_job h ((k, j) ∷ m) = if h == k then some j else find_job h m

unfoldable pub erase_job : ℕ → ActivatedMap → ActivatedMap
erase_job h [] = []
erase_job h ((k, j) ∷ m) = if h == k then m else (k, j) ∷ erase_job h m

-- `m[h] = j`
unfoldable pub assign_job : ℕ → Job → ActivatedMap → ActivatedMap
assign_job h j [] = (h, j) ∷ []
assign_job h j ((k, i) ∷ m) =
    if h == k
    then (k, j) ∷ m
    else if ltb h k
    then (h, j) ∷ (k, i) ∷ m
    else (k, i) ∷ assign_job h j m

module _ (o : Outside) where
  -- A handle is named by the number of handles made before it.
  pub record Loop : Type 0 where
    pub world : o.World
    pub next_handle : ℕ
    pub thread : Bool
    pub waiting_list : List Job
    pub activated_map : ActivatedMap
    pub tickers : List ℕ
    pub request_count : ℕ
    pub number_of_requests_before_tick : ℕ
    pub terminate : Bool
    pub trace : List Event

  abbrev pub Act : Type 0 → Type 0
  Act A = Action Loop Exception A

  -- a call of the world, which gives a value
  unfoldable pub outside : {A : Type 0} → (o.World → A × o.World) → Act A
  outside f s = (ok (f s.world).0, record s { world = (f s.world).1 })

  unfoldable pub outside_do : (o.World → o.World) → Act Unit
  outside_do f s = (ok tt, record s { world = f s.world })

  unfoldable pub raise : Option Exception → Act Unit
  raise none = return tt
  raise (some e) = throw e

  -- a call of a receiver or of a ticker
  unfoldable pub emit : Event → Act Unit
  unfolding raise
  emit e s = raise (o.answer_raises s.trace e) (record s { trace = s.trace ++ (e ∷ []) })

  -- an event that does not throw
  unfoldable pub note : Event → Act Unit
  note e s = (ok tt, record s { trace = s.trace ++ (e ∷ []) })

  unfoldable pub delete_receiver : (receiver : ℕ) → Act Unit
  unfolding note
  delete_receiver r = note (delete r)

  unfoldable pub put_waiting : List Job → Act Unit
  put_waiting ws s = (ok tt, record s { waiting_list = ws })

  unfoldable pub put_activated : ActivatedMap → Act Unit
  put_activated m s = (ok tt, record s { activated_map = m })

  unfoldable pub put_count : ℕ → Act Unit
  put_count n s = (ok tt, record s { request_count = n })

  -- `Data::Data`, where all of its calls succeed; 5 is `NumberOfRequestsBeforeTick`
  unfoldable pub new_loop : o.World → (seconds_period : ℕ) → Loop
  new_loop w seconds_period = record {
    world = w;
    next_handle = 0;
    thread = false;
    waiting_list = [];
    activated_map = [];
    tickers = [];
    request_count = 0;
    number_of_requests_before_tick = seconds_period * 5;
    terminate = false;
    trace = [];
  }
