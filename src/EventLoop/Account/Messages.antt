-- ===== src/EventLoop/Account/Messages.antt =====
-- `processEvents` and `listen` (src/webrequest/curlEventLoop.cpp) on the account of a receiver.
use strus_bindings.Base.{ℕ, zero, suc, ◌≡◌, refl, Option, none, some, ◌∷◌, Bool, arith}
use strus_bindings.Base.Action.{Ends, Leaves, Ends-bind}
use strus_bindings.EventLoop.State.{
  CurlMsg, done, other_msg, Wait, notified, timeout, connection_event, Outside, Job, find_job, Loop,
  Act, outside, outside_do, raise, put_activated,
}
use strus_bindings.EventLoop.Jobs.{resume, destroy_job}
use strus_bindings.EventLoop.Thread.{
  fetch_found, fetch_job, complete_job, handle_message, read_message, read_messages, perform_again,
  perform_rounds, process_events, listened, listen,
}
use strus_bindings.EventLoop.Account.{Keyed-erase, activated-erase}
use strus_bindings.EventLoop.Account.Jobs.{
  Owes, Tidy, Owes-answer, Quiet, Settled, raise-Leaves, resume-Ends, destroy_job-Ends,
}
use strus_bindings.EventLoop.Account.Thread.{Left}

module _ (o : Outside) (r : ℕ) where
  -- the job that `fetchJob` has taken from the map is counted as a waiting one
  abbrev InHand : Option Job → Loop o → Type 0
  InHand none s = Settled o r s
  InHand (some j) s =
      Owes r s.trace (j ∷ s.waiting_list) s.activated_map
      × Tidy s.activated_map s.waiting_list s.next_handle

  fetch_found-Ends :
      (h : ℕ) (f : Option Job) (s : Loop o)
      → find_job h s.activated_map ≡ f
      → Settled o r s
      → Ends InHand (Left o r) (fetch_found o h f s)
  unfolding fetch_found put_activated
  fetch_found-Ends h none s e k = k
  fetch_found-Ends h (some j) s e k = (
    omega (arith, k.0, activated-erase r h s.activated_map j e),
    record {
      bound = k.1.bound;
      keys = Keyed-erase 0 h s.activated_map k.1.bound k.1.keys;
      rising = k.1.rising;
    },
  )

  complete_job-Leaves :
      (h : ℕ) (b : Bool) (f : Option Job) (s : Loop o)
      → Quiet o
      → InHand f s
      → Leaves (Settled o r) (complete_job o h b f s)
  unfolding complete_job outside_do
  complete_job-Leaves h b none s quiet k = k
  complete_job-Leaves h b (some j) s quiet k =
      let s1 : Loop o = record s { world = o.remove_handle h s.world } in
      Ends-bind (λ _. Settled o r) (λ _. Settled o r) (Left o r) (resume o j b s1)
        (λ _. destroy_job o j)
        (resume-Ends o (Settled o r) (Left o r) j b s1 quiet (λ a. (
          Owes-answer r j.receiver a s.trace s.waiting_list s.activated_map (omega (arith, k.0)),
          k.1,
        )))
        (λ _ s2. destroy_job-Ends o r j (Left o r) s2)

  handle_message-Leaves :
      (m : CurlMsg) (s : Loop o)
      → Quiet o
      → Settled o r s
      → Leaves (Settled o r) (handle_message o m s)
  unfolding handle_message fetch_job
  handle_message-Leaves (done h b) s quiet k =
      Ends-bind InHand (λ _. Settled o r) (Left o r) (fetch_job o h s) (complete_job o h b)
        (fetch_found-Ends h (find_job h s.activated_map) s refl k)
        (λ f s1. complete_job-Leaves h b f s1 quiet)
  handle_message-Leaves other_msg s quiet k = k

  read_message-Leaves :
      (again : ℕ → ℕ → Act o (ℕ × ℕ)) (c : ℕ) (x : Option CurlMsg × ℕ) (s : Loop o)
      → Quiet o
      → ((l c : ℕ) (s : Loop o) → Settled o r s → Leaves (Settled o r) (again l c s))
      → Settled o r s
      → Leaves (Settled o r) (read_message o again c x s)
  unfolding read_message
  read_message-Leaves again c (none, l) s quiet f k = k
  read_message-Leaves again c (some m, l) s quiet f k =
      Ends-bind (λ _. Settled o r) (λ _. Settled o r) (Left o r) (handle_message o m s)
        (λ _. again l (suc c)) (handle_message-Leaves m s quiet k) (λ _ s1. f l (suc c) s1)

  read_messages-Leaves :
      (fuel l c : ℕ) (s : Loop o)
      → Quiet o
      → Settled o r s
      → Leaves (Settled o r) (read_messages o fuel l c s)
  unfolding read_messages outside
  read_messages-Leaves zero l c s quiet k = k
  read_messages-Leaves (suc fuel) zero c s quiet k = k
  read_messages-Leaves (suc fuel) (suc l) c s quiet k =
      read_message-Leaves (read_messages o fuel) c _ _ quiet
        (λ l1 c1 s1. read_messages-Leaves fuel l1 c1 s1 quiet) k

  perform_again-Leaves :
      (again : ℕ → Act o Unit) (x : ℕ × ℕ) (s : Loop o)
      → ((l : ℕ) (s : Loop o) → Settled o r s → Leaves (Settled o r) (again l s))
      → Settled o r s
      → Leaves (Settled o r) (perform_again o again x s)
  unfolding perform_again
  perform_again-Leaves again (l, zero) s f k = k
  perform_again-Leaves again (l, suc c) s f k = f l s k

  perform_rounds-Leaves :
      (fuel rounds l : ℕ) (s : Loop o)
      → Quiet o
      → Settled o r s
      → Leaves (Settled o r) (perform_rounds o fuel rounds l s)
  unfolding perform_rounds outside_do
  perform_rounds-Leaves fuel zero l s quiet k = k
  perform_rounds-Leaves fuel (suc n) l s quiet k =
      let s1 : Loop o = record s { world = o.perform s.world } in
      Ends-bind (λ _. Settled o r) (λ _. Settled o r) (Left o r) (read_messages o fuel l 0 s1)
        (perform_again o (perform_rounds o fuel n)) (read_messages-Leaves fuel l 0 s1 quiet k)
        (λ x s2.
          perform_again-Leaves (perform_rounds o fuel n) x s2
            (λ l1 s3. perform_rounds-Leaves fuel n l1 s3 quiet))

  pub process_events-Leaves :
      (fuel rounds : ℕ) (s : Loop o)
      → Quiet o
      → Settled o r s
      → Leaves (Settled o r) (process_events o fuel rounds s)
  unfolding process_events
  process_events-Leaves fuel rounds s = perform_rounds-Leaves fuel rounds 1 s

  listened-Leaves : (w : Wait) (s : Loop o) → Settled o r s → Leaves (Settled o r) (listened o w s)
  unfolding listened outside
  listened-Leaves notified s k =
      let s1 : Loop o = record s { world = (o.consume s.world).1 } in
      Ends-bind (λ _. Settled o r) (λ _. Settled o r) (Left o r) (raise o (o.consume s.world).0 s1)
        _ (raise-Leaves o (Settled o r) (o.consume s.world).0 s1 k) (λ _ s2 k2. k2)
  listened-Leaves timeout s k = k
  listened-Leaves connection_event s k = k

  pub listen-Leaves : (s : Loop o) → Settled o r s → Leaves (Settled o r) (listen o s)
  unfolding listen outside
  listen-Leaves s k = listened-Leaves (o.wait s.world).0 (record s { world = (o.wait s.world).1 }) k
