-- ===== src/EventLoop/Account/Run.antt =====
-- The runs of the event loop (src/webrequest/curlEventLoop.cpp) on the account of a receiver.
use strus_bindings.Base.{ℕ, Bool, true, false, List, [], ◌∷◌}
use strus_bindings.Base.Action.{◌>>=◌, return, catch, Leaves, Ends-bind, Ends-recover}
use strus_bindings.EventLoop.State.{
  Exception, runtime_error, bad_alloc, unexpected, out_of_fuel, Outside, Loop, Act,
}
use strus_bindings.EventLoop.Client.{Call, calls}
use strus_bindings.EventLoop.Thread.{
  activate_idle_jobs, process_events, listen, terminate_pending_requests,
}
use strus_bindings.EventLoop.Run.{
  Ended, shut_down, running, tick_after, round, logged, finish_if, until_terminate, run,
}
use strus_bindings.EventLoop.Account.Jobs.{Quiet, Settled}
use strus_bindings.EventLoop.Account.Thread.{
  Left, tick-Leaves, check_tick-Leaves, activate_idle_jobs-Leaves,
  terminate_pending_requests-Leaves,
}
use strus_bindings.EventLoop.Account.Messages.{process_events-Leaves, listen-Leaves}
use strus_bindings.EventLoop.Account.Client.{calls-Leaves}

module _ (o : Outside) (r : ℕ) where
  tick_after-Leaves :
      (b : Bool) (s : Loop o) → Settled o r s → Leaves (Settled o r) (tick_after o b s)
  unfolding tick_after
  tick_after-Leaves true s k = check_tick-Leaves o r s k
  tick_after-Leaves false s k = tick-Leaves o r s k

  round-Leaves :
      (fuel : ℕ) (s : Loop o) → Quiet o → Settled o r s → Leaves (Settled o r) (round o fuel s)
  unfolding round
  round-Leaves fuel s quiet k =
      Ends-bind (λ _. Settled o r) (λ _. Settled o r) (Left o r) (activate_idle_jobs o s) _
        (activate_idle_jobs-Leaves o r s quiet k)
        λ _ s1 k1.
          Ends-bind (λ _. Settled o r) (λ _. Settled o r) (Left o r) (process_events o fuel 2 s1)
            (λ _. ◌>>=◌ (listen o) (tick_after o)) (process_events-Leaves o r fuel 2 s1 quiet k1)
            λ _ s2 k2.
              Ends-bind (λ _. Settled o r) (λ _. Settled o r) (Left o r) (listen o s2)
                (tick_after o) (listen-Leaves o r s2 k2) tick_after-Leaves

  logged-Leaves : (e : Exception) (s : Loop o) → Settled o r s → Leaves (Settled o r) (logged o e s)
  unfolding logged
  logged-Leaves (runtime_error what) s k = k
  logged-Leaves bad_alloc s k = k
  logged-Leaves unexpected s k = k
  logged-Leaves out_of_fuel s k = k

  finish_if-Leaves :
      (b : Bool) (again : Act o Ended) (s : Loop o)
      → Quiet o
      → Settled o r s
      → Leaves (Settled o r) (again s)
      → Leaves (Settled o r) (finish_if o b again s)
  unfolding finish_if
  finish_if-Leaves true again s quiet k h =
      Ends-bind {B = Ended} (λ _. Settled o r) (λ _. Settled o r) (Left o r)
        (terminate_pending_requests o s) (λ _. return shut_down)
        (terminate_pending_requests-Leaves o r s quiet k) (λ _ s1 k1. k1)
  finish_if-Leaves false again s quiet k h = h

  -- If no receiver throws, then a run of the thread keeps the account of each receiver, whether it
  -- ends, goes on or is left by an exception: it has been answered as often as it was sent, less its
  -- jobs that wait or are active. With it a run keeps the handles of all jobs apart: the keys of the
  -- active jobs are the handles of these jobs and rise, the handles of the waiting jobs rise from
  -- above them in the order of the list, and the next handle is above them all.
  pub run-Settled :
      (fuel : ℕ) (others : List (List Call)) (s : Loop o)
      → Quiet o
      → Settled o r s
      → Leaves (Settled o r) (run o fuel others s)
  unfolding run until_terminate
  run-Settled fuel [] s quiet k = finish_if-Leaves s.terminate (return running) s quiet k k
  run-Settled fuel (cs ∷ others) s quiet k =
      let first : Act o Unit = catch (round o fuel) (logged o) in
      let rest : Act o Ended = ◌>>=◌ first (λ _. run o fuel others) in
      Ends-bind (λ _. Settled o r) (λ _. Settled o r) (Left o r) (calls o cs s)
        (λ _. until_terminate o rest) (calls-Leaves o r cs s quiet k)
        λ _ s1 k1. finish_if-Leaves s1.terminate rest s1 quiet k1 (
          Ends-bind (λ _. Settled o r) (λ _. Settled o r) (Left o r) (first s1)
            (λ _. run o fuel others)
            (Ends-recover (λ _. Settled o r) (Left o r) (Left o r) (round o fuel s1) (logged o)
              (round-Leaves fuel s1 quiet k1) logged-Leaves)
            (λ _ s2 k2. run-Settled fuel others s2 quiet k2))
