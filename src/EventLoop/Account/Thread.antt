-- ===== src/EventLoop/Account/Thread.antt =====
-- The steps of the thread of the event loop (src/webrequest/curlEventLoop.cpp) on the account of a
-- receiver.
use strus_bindings.Base.{ℕ, suc, Option, none, some, List, [], ◌∷◌, ◌==◌, Bytes, arith}
use strus_bindings.Base.Action.{
  ◌>>=◌, Ends, Leaves, Ends-bind, Ends-when, Ends-for_each, Leaves-for_each,
}
use strus_bindings.WebRequest.ErrorCode.{ErrorCode}
use strus_bindings.EventLoop.State.{
  Exception, call_ticker, Outside, Job, job_handle, Loop, outside, emit, put_waiting, put_activated,
  put_count,
}
use strus_bindings.EventLoop.Jobs.{release_job, drop_request, destroy_job}
use strus_bindings.EventLoop.Thread.{
  tick, check_tick, activate_job, activate, activate_idle_jobs, terminate_pending_requests,
}
use strus_bindings.EventLoop.Account.{Keyed-lower, Keyed-widen, Keyed-assign, activated-assign}
use strus_bindings.EventLoop.Account.Jobs.{
  Owes-answer, Owes-ticker, Quiet, Balanced, Settled, raise-Leaves, drop_request-Ends,
  destroy_job-Ends, release_job-Ends,
}

module _ (o : Outside) (r : ℕ) where
  abbrev pub Left : Exception → Loop o → Type 0
  Left e s = Settled o r s

  pub tick-Leaves : (s : Loop o) → Settled o r s → Leaves (Settled o r) (tick o s)
  unfolding tick emit put_count
  tick-Leaves s h =
      Ends-bind (λ _. Settled o r) (λ _. Settled o r) Left _ _
        (Leaves-for_each (Settled o r) (λ t. emit o (call_ticker t)) s.tickers s
          (λ t s1 k.
            raise-Leaves o (Settled o r) (o.answer_raises s1.trace (call_ticker t)) _
              (Owes-ticker r t s1.trace s1.waiting_list s1.activated_map k.0, k.1))
          h)
        (λ _ s1 k. k)

  pub check_tick-Leaves : (s : Loop o) → Settled o r s → Leaves (Settled o r) (check_tick o s)
  unfolding check_tick put_count
  check_tick-Leaves s h =
      Ends-when (λ _. Settled o r) Left (suc s.request_count == s.number_of_requests_before_tick)
        (◌>>=◌ (put_count o 0) (λ _. tick o)) (record s { request_count = suc s.request_count }) h
        (tick-Leaves (record s { request_count = 0 }) h)

  -- a job of the waiting list goes to the map or is answered
  activate_job-Ends :
      (j : Job) (ws : List Job) (e : Option Bytes) (s : Loop o)
      → Quiet o
      → Balanced o r (j ∷ ws) s.activated_map s
      → Ends (λ _ s1. Balanced o r ws s1.activated_map s1) Left (activate_job o j e s)
  unfolding activate_job put_activated
  activate_job-Ends j ws none s quiet h = (
    omega (
      arith,
      h.0,
      activated-assign r 0 (job_handle j) j s.activated_map
          (Keyed-widen 0 s.activated_map h.1.bound (job_handle j) h.1.rising.0 h.1.keys),
    ),
    record {
      bound = suc (job_handle j);
      keys =
          Keyed-assign 0 j s.activated_map
            (Keyed-widen 0 s.activated_map h.1.bound (job_handle j) h.1.rising.0 h.1.keys);
      rising = h.1.rising.1;
    },
  )
  activate_job-Ends j ws (some e) s quiet h =
      drop_request-Ends o (λ s1. Balanced o r ws s1.activated_map s1) Left j
        ErrorCode.delegate_request_failed (some e) s quiet
        (λ a. (
          Owes-answer r j.receiver a s.trace ws s.activated_map (omega (arith, h.0)),
          record {
            bound = suc (job_handle j);
            keys =
                Keyed-widen 0 s.activated_map h.1.bound (suc (job_handle j))
                  (omega (arith, h.1.rising.0)) h.1.keys;
            rising = h.1.rising.1;
          },
        ))

  activate-Ends :
      (j : Job) (ws : List Job) (s : Loop o)
      → Quiet o
      → Balanced o r (j ∷ ws) s.activated_map s
      → Ends (λ _ s1. Balanced o r ws s1.activated_map s1) Left (activate o j s)
  unfolding activate outside
  activate-Ends j ws s quiet h =
      activate_job-Ends j ws (o.add_handle (job_handle j) s.world).0
        (record s { world = (o.add_handle (job_handle j) s.world).1 }) quiet h

  pub activate_idle_jobs-Leaves :
      (s : Loop o) → Quiet o → Settled o r s → Leaves (Settled o r) (activate_idle_jobs o s)
  unfolding activate_idle_jobs put_waiting
  activate_idle_jobs-Leaves s quiet h =
      Ends-bind (λ _ s1. Balanced o r [] s1.activated_map s1) (λ _. Settled o r) Left _ _
        (Ends-for_each (λ ws s1. Balanced o r ws s1.activated_map s1) Left (activate o)
          s.waiting_list s (λ j ws s1. activate-Ends j ws s1 quiet) h)
        λ _ s1 k.
          Leaves-for_each (Settled o r) (release_job o) s.waiting_list
            (record s1 { waiting_list = [] }) (λ j s2. release_job-Ends o r j Left s2) k

  pub terminate_pending_requests-Leaves :
      (s : Loop o) → Quiet o → Settled o r s → Leaves (Settled o r) (terminate_pending_requests o s)
  unfolding terminate_pending_requests put_activated
  terminate_pending_requests-Leaves s quiet h =
      Ends-bind (λ _ s1. Balanced o r s1.waiting_list [] s1) (λ _. Settled o r) Left _ _
        (Ends-for_each (λ m s1. Balanced o r s1.waiting_list m s1) Left
          (λ e. drop_request o e.1 ErrorCode.service_shutdown none) s.activated_map s
          (λ e m s1 k.
            drop_request-Ends o (λ s2. Balanced o r s2.waiting_list m s2) Left e.1
              ErrorCode.service_shutdown none s1 quiet
              (λ a. (
                Owes-answer r e.1.receiver a s1.trace s1.waiting_list m (omega (arith, k.0)),
                record {
                  bound = k.1.bound;
                  keys = Keyed-lower 0 (suc e.0) m k.1.bound (omega arith) k.1.keys.2;
                  rising = k.1.rising;
                },
              )))
          h)
        λ _ s1 k.
          Leaves-for_each (Settled o r) (λ e. destroy_job o e.1) s.activated_map
            (record s1 { activated_map = [] }) (λ e s2. destroy_job-Ends o r e.1 Left s2) k
