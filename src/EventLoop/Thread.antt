-- ===== src/EventLoop/Thread.antt =====
-- What the thread of the event loop does (src/webrequest/curlEventLoop.cpp).
use strus_bindings.Base.{ℕ, zero, suc, Bool, true, false, Option, none, some, [], ◌==◌, Bytes}
use strus_bindings.Base.Action.{◌>>=◌, return, throw, with_state, when, for_each}
use strus_bindings.WebRequest.ErrorCode.{ErrorCode}
use strus_bindings.EventLoop.State.{
  out_of_fuel, call_ticker, CurlMsg, done, other_msg, Wait, notified, timeout, connection_event,
  Outside, Job, job_handle, find_job, erase_job, assign_job, Act, outside, outside_do, raise, emit,
  put_waiting, put_activated, put_count,
}
use strus_bindings.EventLoop.Jobs.{destroy_job, release_job, drop_request, resume}

module _ (o : Outside) where
  unfoldable pub tick : Act o Unit
  unfolding emit put_count
  tick = with_state (λ s. do _ ← for_each (λ t. emit o (call_ticker t)) s.tickers; put_count o 0)

  unfoldable pub check_tick : Act o Unit
  unfolding tick put_count
  check_tick = with_state (λ s. do
    _ ← put_count o (suc s.request_count)
    when (suc s.request_count == s.number_of_requests_before_tick) (do _ ← put_count o 0; tick))

  -- a round of the loop over the waiting jobs
  unfoldable pub activate_job : Job → Option Bytes → Act o Unit
  unfolding drop_request assign_job put_activated
  activate_job j (some e) = drop_request o j ErrorCode.delegate_request_failed (some e)
  activate_job j none =
      with_state (λ s. put_activated o (assign_job (job_handle j) j s.activated_map))

  unfoldable pub activate : Job → Act o Unit
  unfolding outside activate_job
  activate j = do e ← outside o (o.add_handle (job_handle j)); activate_job j e

  unfoldable pub activate_idle_jobs : Act o Unit
  unfolding activate put_waiting release_job
  activate_idle_jobs = with_state (λ s. do
    _ ← for_each activate s.waiting_list
    _ ← put_waiting o []
    for_each (release_job o) s.waiting_list)

  unfoldable pub fetch_found : (handle : ℕ) → Option Job → Act o (Option Job)
  unfolding erase_job put_activated
  fetch_found h none = return none
  fetch_found h (some j) =
      with_state (λ s. do _ ← put_activated o (erase_job h s.activated_map); return (some j))

  unfoldable pub fetch_job : (handle : ℕ) → Act o (Option Job)
  unfolding find_job fetch_found
  fetch_job h = with_state (λ s. fetch_found h (find_job h s.activated_map))

  unfoldable pub terminate_pending_requests : Act o Unit
  unfolding drop_request destroy_job put_activated
  terminate_pending_requests = with_state (λ s. do
    _ ← for_each (λ e. drop_request o e.1 ErrorCode.service_shutdown none) s.activated_map
    _ ← put_activated o []
    for_each (λ e. destroy_job o e.1) s.activated_map)

  -- a message about a job, which ends with it
  unfoldable pub complete_job : (handle : ℕ) → (is_ok : Bool) → Option Job → Act o Unit
  unfolding outside_do resume destroy_job
  complete_job h is_ok none = return tt
  complete_job h is_ok (some j) = do
    _ ← outside_do o (o.remove_handle h)
    _ ← resume o j is_ok
    destroy_job o j

  unfoldable pub handle_message : CurlMsg → Act o Unit
  unfolding fetch_job complete_job
  handle_message (done h is_ok) = do job ← fetch_job h; complete_job h is_ok job
  handle_message other_msg = return tt

  -- a round of the inner loop, where `again` is the next one
  unfoldable pub read_message :
      (again : (msg_left msg_count : ℕ) → Act o (ℕ × ℕ))
      → (msg_count : ℕ) → Option CurlMsg × ℕ
      → Act o (ℕ × ℕ)
  unfolding handle_message
  read_message again msg_count (none, msg_left) = return (msg_left, msg_count)
  read_message again msg_count (some msg, msg_left) = do
    _ ← handle_message msg
    again msg_left (suc msg_count)

  abbrev pub read_info : Act o (Option CurlMsg × ℕ)
  read_info =
      outside o (λ w. let r : Option CurlMsg × ℕ × o.World = o.info_read w in ((r.0, r.1), r.2))

  -- the inner loop, to the values of `msgLeft` and of `msgCount`
  unfoldable pub read_messages : (fuel msg_left msg_count : ℕ) → Act o (ℕ × ℕ)
  unfolding outside read_message
  read_messages zero msg_left msg_count = throw out_of_fuel
  read_messages (suc fuel) zero msg_count = return (0, msg_count)
  read_messages (suc fuel) (suc msg_left) msg_count = do
    r ← read_info
    read_message (read_messages fuel) msg_count r

  unfoldable pub perform_again : (again : (msg_left : ℕ) → Act o Unit) → ℕ × ℕ → Act o Unit
  perform_again again (msg_left, zero) = return tt
  perform_again again (msg_left, suc msg_count) = again msg_left

  -- the outer loop
  unfoldable pub perform_rounds : (fuel rounds msg_left : ℕ) → Act o Unit
  unfolding outside_do read_messages perform_again
  perform_rounds fuel zero msg_left = throw out_of_fuel
  perform_rounds fuel (suc rounds) msg_left = do
    _ ← outside_do o o.perform
    counts ← read_messages fuel msg_left 0
    perform_again (perform_rounds fuel rounds) counts

  unfoldable pub process_events : (fuel rounds : ℕ) → Act o Unit
  unfolding perform_rounds
  process_events fuel rounds = perform_rounds fuel rounds 1

  unfoldable pub listened : Wait → Act o Bool
  unfolding outside raise
  listened notified = do e ← outside o o.consume; _ ← raise o e; return true
  listened timeout = return false
  listened connection_event = return true

  unfoldable pub listen : Act o Bool
  unfolding outside listened
  listen = do w ← outside o o.wait; listened w
