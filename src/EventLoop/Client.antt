-- ===== src/EventLoop/Client.antt =====
-- What the other threads call (src/webrequest/curlEventLoop.cpp): `send`, `addTickerEvent`, `start`
-- and `stop`.
use strus_bindings.Base.{
  ℕ, Bool, true, false, not, some, List, [], ◌∷◌, ◌++◌, if◌then◌else◌, Bytes, codes,
}
use strus_bindings.Base.Action.{◌>>=◌, return, throw, with_state, modify, catch, when, for_each}
use strus_bindings.Base.Result.{ok}
use strus_bindings.WebRequest.ErrorCode.{ErrorCode}
use strus_bindings.EventLoop.State.{
  Exception, runtime_error, bad_alloc, unexpected, out_of_fuel, with_error, sent, put_answer,
  Outside, Job, Act, outside_do, note, emit, delete_receiver, put_waiting,
}
use strus_bindings.EventLoop.Jobs.{curl_message}

module _ (o : Outside) where
  unfoldable pub push_job : Job → Act o Unit
  unfolding put_waiting
  push_job j = with_state (λ s. put_waiting o (s.waiting_list ++ (j ∷ [])))

  -- the job that holds the receiver; if its constructor throws, the only reference to the receiver
  -- ends
  unfoldable pub new_job : (address method content : Bytes) → (receiver : ℕ) → Act o Job
  unfolding curl_message delete_receiver
  new_job address method content r = do
    m ←
        catch (curl_message o address method content)
          (λ e. ◌>>=◌ (delete_receiver o r) (λ _. throw e))
    return (record { message = m; receiver = r })

  unfoldable pub try_send : (address method content : Bytes) → (receiver : ℕ) → Act o Bool
  unfolding new_job push_job outside_do
  try_send address method content r = with_state (λ s. do
    _ ←
        when (not s.thread)
          (throw (runtime_error (codes "send failed because eventloop thread not started yet")))
    j ← new_job address method content r
    _ ← push_job j
    _ ← outside_do o o.notify
    return true)

  unfoldable pub send_failed : (receiver : ℕ) → ErrorCode → Bytes → Act o Bool
  unfolding emit delete_receiver
  send_failed r code msg = do
    _ ← emit o (put_answer r (with_error 500 code (some msg)))
    _ ← delete_receiver o r
    return false

  unfoldable pub send_caught : (receiver : ℕ) → Exception → Act o Bool
  unfolding send_failed
  send_caught r (runtime_error what) = send_failed r ErrorCode.delegate_request_failed what
  send_caught r bad_alloc = send_failed r ErrorCode.out_of_mem (codes "memory allocation error")
  send_caught r unexpected =
      send_failed r ErrorCode.delegate_request_failed (codes "unexpected exception")
  send_caught r out_of_fuel =
      send_failed r ErrorCode.delegate_request_failed (codes "unexpected exception")

  unfoldable pub send : (address method content : Bytes) → (receiver : ℕ) → Act o Bool
  unfolding note try_send send_caught
  send address method content r = do
    _ ← note o (sent r)
    catch (try_send address method content r) (send_caught r)

  -- memory for the ticker is found
  unfoldable pub add_ticker_event : (ticker : ℕ) → Act o Bool
  add_ticker_event t s = (ok true, record s { tickers = s.tickers ++ (t ∷ []) })

  unfoldable pub start : Act o Bool
  start s =
      if s.thread then (ok false, s) else (ok true, record s { terminate = false; thread = true })

  unfoldable pub request_terminate : Act o Unit
  unfolding outside_do
  request_terminate = do _ ← modify (λ s. record s { terminate = true }); outside_do o o.notify

  -- `join` is what the thread does until it has ended
  unfoldable pub stop : (join : Act o Unit) → Act o Unit
  unfolding request_terminate
  stop join = with_state (λ s.
      when s.thread
        (do _ ← request_terminate; _ ← join; modify (λ s1. record s1 { thread = false })))

-- the calls that the thread may meet while it runs
pub data Call : Type 0 where
  send_call : (address method content : Bytes) → (receiver : ℕ) → Call
  ticker_call : (ticker : ℕ) → Call
  terminate_call : Call

module _ (o : Outside) where
  unfoldable pub call : Call → Act o Unit
  unfolding send add_ticker_event request_terminate
  call (send_call address method content r) =
      ◌>>=◌ (send o address method content r) (λ _. return tt)
  call (ticker_call t) = ◌>>=◌ (add_ticker_event o t) (λ _. return tt)
  call terminate_call = request_terminate o

  -- an exception of a call reaches its caller, not the thread of the loop
  unfoldable pub calls : List Call → Act o Unit
  unfolding call
  calls = for_each (λ c. catch (call c) (λ _. return tt))
