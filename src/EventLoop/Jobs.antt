-- ===== src/EventLoop/Jobs.antt =====
-- `CurlMessage::CurlMessage` (src/webrequest/curlMessage.cpp) and `WebRequestDelegateJob`
-- (src/webrequest/curlEventLoop.cpp).
use strus_bindings.Base.{ℕ, suc, Bool, true, false, not, Option, none, some, ◌++◌, Bytes, codes}
use strus_bindings.Base.Action.{◌>>=◌, return, throw, with_state, catch, when, for_each}
use strus_bindings.Base.Result.{ok}
use strus_bindings.WebRequest.ErrorCode.{ErrorCode, error_code_to_http_status}
use strus_bindings.EventLoop.Message.{
  CurlMessage, CurlOption, new_message, message_options, stderr, verbose,
}
use strus_bindings.EventLoop.State.{
  Exception, runtime_error, bad_alloc, unexpected, out_of_fuel, Answer, with_content, with_error,
  put_answer, Outside, Job, job_handle, find_job, Act, outside, outside_do, emit, delete_receiver,
}

unfoldable pub get_or_else {ℓ} : {A : Type ℓ} → A → Option A → A
get_or_else d none = d
get_or_else d (some a) = a

module _ (o : Outside) where
  unfoldable pub or_throw : (context : Bytes) → Option Bytes → Act o Unit
  or_throw context none = return tt
  or_throw context (some e) = throw (runtime_error (context ++ e))

  unfoldable pub set_curl_opt : (handle : ℕ) → CurlOption → Act o Unit
  unfolding outside or_throw
  set_curl_opt h opt = do
    e ← outside o (o.easy_setopt h opt)
    or_throw (codes "failed set socket option: ") e

  unfoldable pub set_log_options : (handle : ℕ) → Option Bytes → Act o Unit
  unfolding set_curl_opt outside_do
  set_log_options h none = do _ ← set_curl_opt h stderr; set_curl_opt h (verbose 1)
  set_log_options h (some e) = do
    _ ← outside_do o (o.easy_cleanup h)
    throw
        (runtime_error (codes "initialization of stream for verbose logging of cURL failed: " ++ e))

  unfoldable pub open_log_if : (log_info : Bool) → (handle : ℕ) → Act o Unit
  unfolding set_log_options outside
  open_log_if false h = return tt
  open_log_if true h = do e ← outside o o.open_log; set_log_options h e

  unfoldable pub next_handle : Act o ℕ
  next_handle s = (ok s.next_handle, record s { next_handle = suc s.next_handle })

  unfoldable pub check_message : (got : Bool) → Act o Unit
  check_message got = do
    _ ←
        when (not o.globals_valid)
          (throw (runtime_error (codes "fatal: delegate connection globals initialization failed")))
    when (not got) (throw bad_alloc)

  -- the body of the constructor, where `got` says whether `curl_easy_init` has given a handle: an
  -- exception of it leaves that handle as it is
  unfoldable pub set_message : (got : Bool) → CurlMessage → Act o CurlMessage
  unfolding check_message set_curl_opt open_log_if
  set_message got m = do
    _ ← check_message got
    _ ← for_each (set_curl_opt m.handle) (message_options m)
    _ ← open_log_if o.log_info m.handle
    return m

  unfoldable pub curl_message : (address method content : Bytes) → Act o CurlMessage
  unfolding outside next_handle set_message
  curl_message address method content = do
    got ← outside o o.easy_init
    h ← next_handle
    set_message got (new_message h address method content)

  -- `CurlMessage::~CurlMessage` and the release of the receiver
  unfoldable pub destroy_job : Job → Act o Unit
  unfolding delete_receiver outside_do
  destroy_job j = do _ ← delete_receiver o j.receiver; outside_do o (o.easy_cleanup (job_handle j))

  unfoldable pub release_unless : Option Job → Job → Act o Unit
  unfolding destroy_job
  release_unless none j = destroy_job j
  release_unless (some i) j = return tt

  -- A reference to the job ends: the job does, if it is not in the map.
  unfoldable pub release_job : Job → Act o Unit
  unfolding find_job release_unless
  release_job j = with_state (λ s. release_unless (find_job (job_handle j) s.activated_map) j)

  unfoldable pub drop_request : Job → ErrorCode → (errmsg : Option Bytes) → Act o Unit
  unfolding emit get_or_else error_code_to_http_status
  drop_request j errcode errmsg = emit o (
      put_answer j.receiver (
        with_error (error_code_to_http_status errcode) errcode
          (some (get_or_else (o.error_string errcode) errmsg))))

  unfoldable pub answer_of : Job → (is_ok : Bool) → o.World → Answer
  unfolding get_or_else
  answer_of j true w =
      with_content (get_or_else 0 (o.response_code (job_handle j) w))
        (o.response_content (job_handle j) w)
  answer_of j false w =
      with_error (get_or_else 500 (o.response_code (job_handle j) w))
        ErrorCode.delegate_request_failed (o.response_error (job_handle j) w)

  unfoldable pub drop_on : Job → Exception → Act o Unit
  unfolding drop_request
  drop_on j (runtime_error what) = drop_request j ErrorCode.runtime_error (some what)
  drop_on j bad_alloc = drop_request j ErrorCode.out_of_mem none
  drop_on j unexpected =
      drop_request j ErrorCode.delegate_request_failed (some (codes "unexpected exception"))
  drop_on j out_of_fuel = throw out_of_fuel

  unfoldable pub resume : Job → (is_ok : Bool) → Act o Unit
  unfolding emit answer_of drop_on
  resume j is_ok =
      catch (with_state (λ s. emit o (put_answer j.receiver (answer_of j is_ok s.world))))
        (drop_on j)
