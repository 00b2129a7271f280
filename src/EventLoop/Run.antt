-- ===== src/EventLoop/Run.antt =====
-- `CurlEventLoop::Data::run` (src/webrequest/curlEventLoop.cpp): the rounds of the thread until the
-- flag of its termination is set.
use strus_bindings.Base.{ℕ, Bool, true, false, List, [], ◌∷◌}
use strus_bindings.Base.Action.{◌>>=◌, return, throw, with_state, catch}
use strus_bindings.EventLoop.State.{
  Exception, runtime_error, bad_alloc, unexpected, out_of_fuel, Outside, Act,
}
use strus_bindings.EventLoop.Client.{Call, calls}
use strus_bindings.EventLoop.Thread.{
  tick, check_tick, activate_idle_jobs, process_events, listen, terminate_pending_requests,
}

-- `running` is the model's own: the rounds that are given are over, the loop is not.
pub data Ended : Type 0 where
  shut_down running : Ended

module _ (o : Outside) where
  unfoldable pub tick_after : (has_event : Bool) → Act o Unit
  unfolding check_tick tick
  tick_after true = check_tick o
  tick_after false = tick o

  unfoldable pub round : (fuel : ℕ) → Act o Unit
  unfolding activate_idle_jobs process_events listen tick_after
  round fuel = do
    _ ← activate_idle_jobs o
    _ ← process_events o fuel 2
    has_event ← listen o
    tick_after has_event

  -- what the handlers of `run` let pass ends the thread
  unfoldable pub logged : Exception → Act o Unit
  logged (runtime_error what) = return tt
  logged bad_alloc = return tt
  logged unexpected = throw unexpected
  logged out_of_fuel = throw out_of_fuel

  unfoldable pub finish_if : (terminate : Bool) → (again : Act o Ended) → Act o Ended
  unfolding terminate_pending_requests
  finish_if true again = ◌>>=◌ (terminate_pending_requests o) (λ _. return shut_down)
  finish_if false again = again

  unfoldable pub until_terminate : (again : Act o Ended) → Act o Ended
  unfolding finish_if
  until_terminate again = with_state (λ s. finish_if s.terminate again)

  -- `others` has the calls of the other threads that take effect before each test of the flag
  unfoldable pub run : (fuel : ℕ) → (others : List (List Call)) → Act o Ended
  unfolding round logged until_terminate calls
  run fuel [] = until_terminate (return running)
  run fuel (cs ∷ others) = do
    _ ← calls o cs
    until_terminate (◌>>=◌ (catch (round fuel) logged) (λ _. run fuel others))
