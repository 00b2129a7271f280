-- ===== src/EventLoop/Termination.antt =====
-- `run` (src/webrequest/curlEventLoop.cpp) ends once its termination is requested.
use strus_bindings.Base.{
  ℕ, ◌+◌, ◌<◌, ◌≡◌, refl, Bool, true, false, none, List, [], ◌∷◌, ◌++◌, arith,
}
use strus_bindings.Base.Action.{
  ◌>>=◌, return, catch, for_each, for_each-append, recover, Ends, Ends-bind, Ends-recover,
  Ends-mono, Ends-both, Ends-for_each,
}
use strus_bindings.Base.Result.{Result, ok, err}
use strus_bindings.WebRequest.ErrorCode.{ErrorCode}
use strus_bindings.EventLoop.State.{
  Exception, runtime_error, bad_alloc, unexpected, out_of_fuel, Event, ActivatedMap, Job, Outside,
  Loop, Act, outside, outside_do, note, delete_receiver, put_activated, new_loop,
}
use strus_bindings.EventLoop.Jobs.{destroy_job, drop_request}
use strus_bindings.EventLoop.Client.{Call, terminate_call, call, calls, request_terminate}
use strus_bindings.EventLoop.Thread.{
  activate_idle_jobs, process_events, terminate_pending_requests, listen,
}
use strus_bindings.EventLoop.Run.{
  Ended, shut_down, tick_after, round, logged, finish_if, until_terminate, run,
}
use strus_bindings.EventLoop.Account.{answers, sends, waiting}
use strus_bindings.EventLoop.Account.Jobs.{Owes, Quiet, Settled, drop_request-Ends}
use strus_bindings.EventLoop.Account.Run.{run-Settled}
use strus_bindings.EventLoop.Batches.{Queue, Never}
use strus_bindings.EventLoop.Shutdown.{
  Calm, Any, Handled, activate_idle_jobs-Handled, process_events-Handled, listened-Handled,
  tick_after-Handled,
}

balance :
    (m : ActivatedMap)
    → m ≡ []
    → (r : ℕ) (tr : List Event) (ws : List Job) → Owes r tr ws m
    → answers r tr + waiting r ws ≡ sends r tr
balance [] e r tr ws h = omega (arith, h)
balance (x ∷ m) e r tr ws h = absurd (ground arith)

module _ (o : Outside) (q : Queue o) where
  abbrev Inactive : Loop o → Type 0
  Inactive s = s.activated_map ≡ []

  terminate_pending_requests-Inactive :
      (s : Loop o) → Quiet o → Ends (λ _. Inactive) (Never o q) (terminate_pending_requests o s)
  unfolding terminate_pending_requests put_activated destroy_job delete_receiver note outside_do
  terminate_pending_requests-Inactive s quiet =
      Ends-bind (λ _. Any o) (λ _. Inactive) (Never o q) _
        (λ _. ◌>>=◌ (put_activated o []) (λ _. for_each (λ e. destroy_job o e.1) s.activated_map))
        (Ends-for_each (λ _. Any o) (Never o q)
          (λ e. drop_request o e.1 ErrorCode.service_shutdown none) s.activated_map s
          (λ e _ s1 _.
            drop_request-Ends o (Any o) (Never o q) e.1 ErrorCode.service_shutdown none s1 quiet
              (λ a. tt))
          tt)
        λ _ s1 _.
          Ends-for_each (λ _. Inactive) (Never o q) (λ e. destroy_job o e.1) s.activated_map
            (record s1 { activated_map = [] }) (λ e _ s2 k. k) refl

  -- The messages that `curl_multi_perform` leaves to read are fewer than the fuel.
  abbrev pub Enough : ℕ → Type 0
  Enough fuel = (w : o.World) → q.left (o.perform w) < fuel

  round-Handled :
      (fuel : ℕ) (s : Loop o)
      → Calm o
      → Enough fuel
      → Ends (λ _. Any o) (Handled o) (round o fuel s)
  unfolding round listen outside
  round-Handled fuel s calm enough =
      Ends-bind (λ _. Any o) (λ _. Any o) (Handled o) (activate_idle_jobs o s) _
        (activate_idle_jobs-Handled o s calm.quiet)
        λ _ s1 _.
          Ends-bind (λ _. Any o) (λ _. Any o) (Handled o) (process_events o fuel 2 s1)
            (λ _. ◌>>=◌ (listen o) (tick_after o))
            (process_events-Handled o q fuel s1 calm.quiet (enough s1.world))
            λ _ s2 _.
              Ends-bind (λ _. Any o) (λ _. Any o) (Handled o) (listen o s2) (tick_after o)
                (listened-Handled o (o.wait s2.world).0 (record s2 { world = (o.wait s2.world).1 })
                  calm)
                (λ b s3 _. tick_after-Handled o b s3 calm)

  logged-Ends :
      (e : Exception) (s : Loop o) → Handled o e s → Ends (λ _. Any o) (Never o q) (logged o e s)
  unfolding logged
  logged-Ends (runtime_error what) s h = tt
  logged-Ends bad_alloc s h = tt
  logged-Ends unexpected s h = absurd h
  logged-Ends out_of_fuel s h = absurd h

  -- The thread has ended by itself, with no job left that is active.
  abbrev pub IsShutDown : Ended → Loop o → Type 0
  IsShutDown e s = (e ≡ shut_down) × (s.activated_map ≡ [])

  finish_if-Ends :
      (b : Bool) (again : Act o Ended) (s : Loop o)
      → b ≡ true
      → Quiet o
      → Ends IsShutDown (Never o q) (finish_if o b again s)
  unfolding finish_if
  finish_if-Ends true again s e quiet =
      Ends-bind (λ _. Inactive) IsShutDown (Never o q) (terminate_pending_requests o s)
        (λ _. return shut_down) (terminate_pending_requests-Inactive s quiet) (λ _ s1 k. (refl, k))
  finish_if-Ends false again s e quiet = absurd (ground arith)

  finish_if-IsShutDown :
      (b : Bool) (again : Act o Ended) (s : Loop o)
      → Quiet o
      → Ends IsShutDown (Never o q) (again s)
      → Ends IsShutDown (Never o q) (finish_if o b again s)
  unfolding finish_if
  finish_if-IsShutDown true again s quiet h = finish_if-Ends true again s refl quiet
  finish_if-IsShutDown false again s quiet h = h

  caught_call-Ends :
      (c : Call) (r : Result Exception Unit × Loop o)
      → Ends (λ _. Any o) (Never o q) (recover (λ _. return tt) r)
  caught_call-Ends c (ok a, s) = tt
  caught_call-Ends c (err e, s) = tt

  calls-Ends : (cs : List Call) (s : Loop o) → Ends (λ _. Any o) (Never o q) (calls o cs s)
  unfolding calls
  calls-Ends cs s =
      Ends-for_each (λ _. Any o) (Never o q) (λ c. catch (call o c) (λ _. return tt)) cs s
        (λ c _ s1 _. caught_call-Ends c (call o c s1)) tt

  calls_terminate-sets :
      (s : Loop o)
      → Ends (λ _ s1. s1.terminate ≡ true) (Never o q) (calls o (terminate_call ∷ []) s)
  unfolding calls call request_terminate outside_do
  calls_terminate-sets s = refl

  calls-terminate :
      (cs : List Call) (s : Loop o)
      → Ends (λ _ s1. s1.terminate ≡ true) (Never o q) (calls o (cs ++ (terminate_call ∷ [])) s)
  unfolding calls
  calls-terminate cs s =
      rw (for_each-append (λ c. catch (call o c) (λ _. return tt)) cs (terminate_call ∷ []) s) (
        Ends-bind (λ _. Any o) (λ _ s1. s1.terminate ≡ true) (Never o q) (calls o cs s)
          (λ _. calls o (terminate_call ∷ [])) (calls-Ends cs s)
          (λ _ s1 _. calls_terminate-sets s1))

  run-IsShutDown :
      (fuel : ℕ) (before after : List (List Call)) (cs : List Call) (s : Loop o)
      → Calm o
      → Enough fuel
      → Ends IsShutDown
          (Never o q)
          (run o fuel (before ++ ((cs ++ (terminate_call ∷ [])) ∷ after)) s)
  unfolding run until_terminate finish_if
  run-IsShutDown fuel [] after cs s calm enough =
      Ends-bind (λ _ s1. s1.terminate ≡ true) IsShutDown (Never o q)
        (calls o (cs ++ (terminate_call ∷ [])) s) _ (calls-terminate cs s)
        (λ _ s1 k. finish_if-Ends s1.terminate _ s1 k calm.quiet)
  run-IsShutDown fuel (ds ∷ before) after cs s calm enough =
      let rest : List (List Call) = before ++ ((cs ++ (terminate_call ∷ [])) ∷ after) in
      let first : Act o Unit = catch (round o fuel) (logged o) in
      Ends-bind (λ _. Any o) IsShutDown (Never o q) (calls o ds s) _ (calls-Ends ds s)
        λ _ s1 _.
          finish_if-IsShutDown s1.terminate (◌>>=◌ first (λ _. run o fuel rest)) s1 calm.quiet (
            Ends-bind (λ _. Any o) IsShutDown (Never o q) (first s1) (λ _. run o fuel rest)
              (Ends-recover (λ _. Any o) (Handled o) (Never o q) (round o fuel s1) (logged o)
                (round-Handled fuel s1 calm enough) logged-Ends)
              (λ _ s2 _. run-IsShutDown fuel before after cs s2 calm enough))

  -- Once `terminate` is among the calls of the other threads, the thread ends by itself, with no
  -- active job, and each receiver of a loop that was new has been answered as often as it was sent,
  -- less its jobs that still wait. Receivers do not throw, `run` handles what tickers and the pipe
  -- throw, and the fuel is more than the messages that a `curl_multi_perform` leaves to read.
  pub run-answers :
      (fuel : ℕ) (before after : List (List Call)) (cs : List Call) (w : o.World)
      (seconds_period r : ℕ)
      → Calm o
      → Enough fuel
      → Ends
          (λ e s.
            (e ≡ shut_down)
            × (s.activated_map ≡ [])
            × (answers r s.trace + waiting r s.waiting_list ≡ sends r s.trace))
          (Never o q)
          (run o fuel
            (before ++ ((cs ++ (terminate_call ∷ [])) ∷ after))
            (record (new_loop o w seconds_period) { thread = true }))
  unfolding new_loop
  run-answers fuel before after cs w seconds_period r calm enough =
      let s : Loop o = record (new_loop o w seconds_period) { thread = true } in
      let others : List (List Call) = before ++ ((cs ++ (terminate_call ∷ [])) ∷ after) in
      Ends-mono (λ e s1. IsShutDown e s1 × Settled o r s1) _ (λ e s1. ⊥ × Settled o r s1)
        (Never o q) (run o fuel others s)
        (λ e s1 h. (h.0.0, h.0.1, balance s1.activated_map h.0.1 r s1.trace s1.waiting_list h.1.0))
        (λ e s1 h. h.0)
        (Ends-both IsShutDown (λ _. Settled o r) (Never o q) (λ _. Settled o r)
          (run o fuel others s) (run-IsShutDown fuel before after cs s calm enough)
          (run-Settled o r fuel others s calm.quiet
            (refl, record { bound = 0; keys = omega arith; rising = omega arith })))
