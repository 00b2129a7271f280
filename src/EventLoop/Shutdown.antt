-- ===== src/EventLoop/Shutdown.antt =====
-- The end of the thread of the event loop (src/webrequest/curlEventLoop.cpp).
use strus_bindings.Base.{ℕ, zero, suc, ◌<◌, Bool, true, false, Option, none, some, List, []}
use strus_bindings.Base.Action.{
  ◌>>=◌, return, for_each, Ends, Ends-bind, Ends-mono, Ends-when, Ends-for_each,
}
use strus_bindings.WebRequest.ErrorCode.{ErrorCode}
use strus_bindings.EventLoop.State.{
  Exception, runtime_error, bad_alloc, unexpected, out_of_fuel, Event, call_ticker, Wait, notified,
  timeout, connection_event, Outside, Job, job_handle, find_job, Loop, outside, outside_do, raise,
  emit, note, delete_receiver, put_waiting, put_activated, put_count,
}
use strus_bindings.EventLoop.Jobs.{destroy_job, release_unless, release_job}
use strus_bindings.EventLoop.Thread.{
  tick, check_tick, activate_job, activate, activate_idle_jobs, read_messages, process_events,
  listened,
}
use strus_bindings.EventLoop.Run.{tick_after}
use strus_bindings.EventLoop.Account.Jobs.{Quiet, drop_request-Ends}
use strus_bindings.EventLoop.Batches.{
  Queue, Never, NoneLeft, if_any, read_messages-Ends, process_events-one_batch,
}

-- The exceptions that the handlers of `run` take.
abbrev pub IsHandled : Exception → Type 0
IsHandled (runtime_error what) = Unit
IsHandled bad_alloc = Unit
IsHandled unexpected = ⊥
IsHandled out_of_fuel = ⊥

abbrev pub AllHandled : Option Exception → Type 0
AllHandled none = Unit
AllHandled (some e) = IsHandled e

module _ (o : Outside) where
  -- No receiver throws, and what the tickers and the pipe throw has a handler in `run`.
  pub record Calm : Type 0 where
    pub quiet : Quiet o
    pub tickers : (tr : List Event) (t : ℕ) → AllHandled (o.answer_raises tr (call_ticker t))
    pub pipe : (w : o.World) → AllHandled (o.consume w).0

  abbrev pub Any : Loop o → Type 0
  Any s = Unit

  abbrev pub Handled : Exception → Loop o → Type 0
  Handled e s = IsHandled e

  raise-Handled :
      (e : Option Exception) (s : Loop o) → AllHandled e → Ends (λ _. Any) Handled (raise o e s)
  unfolding raise
  raise-Handled none s h = tt
  raise-Handled (some e) s h = h

  activate_job-Handled :
      (j : Job) (e : Option (List ℕ)) (s : Loop o)
      → Quiet o
      → Ends (λ _. Any) Handled (activate_job o j e s)
  unfolding activate_job put_activated
  activate_job-Handled j none s quiet = tt
  activate_job-Handled j (some e) s quiet =
      drop_request-Ends o Any Handled j ErrorCode.delegate_request_failed (some e) s quiet (λ a. tt)

  release_unless-Handled :
      (i : Option Job) (j : Job) (s : Loop o) → Ends (λ _. Any) Handled (release_unless o i j s)
  unfolding release_unless destroy_job delete_receiver note outside_do
  release_unless-Handled none j s = tt
  release_unless-Handled (some i) j s = tt

  pub activate_idle_jobs-Handled :
      (s : Loop o) → Quiet o → Ends (λ _. Any) Handled (activate_idle_jobs o s)
  unfolding activate_idle_jobs activate release_job outside put_waiting
  activate_idle_jobs-Handled s quiet =
      Ends-bind (λ _. Any) (λ _. Any) Handled (for_each (activate o) s.waiting_list s)
        (λ _. ◌>>=◌ (put_waiting o []) (λ _. for_each (release_job o) s.waiting_list))
        (Ends-for_each (λ _. Any) Handled (activate o) s.waiting_list s
          (λ j _ s1 _. activate_job-Handled j (o.add_handle (job_handle j) s1.world).0 _ quiet) tt)
        λ _ s1 _.
          Ends-for_each (λ _. Any) Handled (release_job o) s.waiting_list _
            (λ j _ s2 _. release_unless-Handled (find_job (job_handle j) s2.activated_map) j s2) tt

  if_any-Handled :
      (n : ℕ) (s : Loop o) → Ends (λ _. Any) Handled (if_any o n (outside_do o o.perform) s)
  unfolding outside_do
  if_any-Handled zero s = tt
  if_any-Handled (suc n) s = tt

  pub process_events-Handled :
      (q : Queue o) (fuel : ℕ) (s : Loop o)
      → Quiet o
      → q.left (o.perform s.world) < fuel
      → Ends (λ _. Any) Handled (process_events o fuel 2 s)
  unfolding outside_do
  process_events-Handled q fuel s quiet k =
      let s1 : Loop o = record s { world = o.perform s.world } in
      rw (process_events-one_batch o q fuel s quiet k) (
        Ends-bind (λ _. Any) (λ _. Any) Handled (read_messages o fuel 1 0 s1)
          (λ counts. if_any o counts.1 (outside_do o o.perform))
          (Ends-mono (NoneLeft o q) (λ _. Any) (Never o q) Handled _ (λ _ _ _. tt)
            (λ _ _ n. absurd n) (read_messages-Ends o q fuel 1 0 s1 quiet k))
          (λ counts s2 _. if_any-Handled counts.1 s2))

  pub listened-Handled : (w : Wait) (s : Loop o) → Calm → Ends (λ _. Any) Handled (listened o w s)
  unfolding listened outside
  listened-Handled notified s calm =
      let s1 : Loop o = record s { world = (o.consume s.world).1 } in
      Ends-bind {B = Bool} (λ _. Any) (λ _. Any) Handled (raise o (o.consume s.world).0 s1)
        (λ _. return true) (raise-Handled (o.consume s.world).0 s1 (calm.pipe s.world))
        (λ _ s2 _. tt)
  listened-Handled timeout s calm = tt
  listened-Handled connection_event s calm = tt

  tick-Handled : (s : Loop o) → Calm → Ends (λ _. Any) Handled (tick o s)
  unfolding tick emit put_count
  tick-Handled s calm =
      Ends-bind (λ _. Any) (λ _. Any) Handled (for_each (λ t. emit o (call_ticker t)) s.tickers s)
        (λ _. put_count o 0)
        (Ends-for_each (λ _. Any) Handled (λ t. emit o (call_ticker t)) s.tickers s
          (λ t _ s1 _.
            raise-Handled (o.answer_raises s1.trace (call_ticker t)) _ (calm.tickers s1.trace t))
          tt)
        (λ _ s1 _. tt)

  pub tick_after-Handled :
      (b : Bool) (s : Loop o) → Calm → Ends (λ _. Any) Handled (tick_after o b s)
  unfolding tick_after check_tick put_count
  tick_after-Handled true s calm =
      Ends-when (λ _. Any) Handled _ (◌>>=◌ (put_count o 0) (λ _. tick o)) _ tt
        (tick-Handled (record s { request_count = 0 }) calm)
  tick_after-Handled false s calm = tick-Handled s calm
