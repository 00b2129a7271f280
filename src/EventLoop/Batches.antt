-- ===== src/EventLoop/Batches.antt =====
-- How `processEvents` (src/webrequest/curlEventLoop.cpp) reads the messages of libcurl.
use strus_bindings.Base.{ℕ, zero, suc, ◌<◌, ◌≤◌, ◌≡◌, refl, Bool, Option, none, some, arith}
use strus_bindings.Base.Action.{◌>>=◌, return, go_on, Ends, Ends-bind}
use strus_bindings.Base.Result.{Result, ok, err}
use strus_bindings.EventLoop.State.{
  Exception, CurlMsg, done, other_msg, Outside, Job, find_job, Loop, Act, outside, outside_do,
  delete_receiver, note, put_activated,
}
use strus_bindings.EventLoop.Jobs.{resume, destroy_job}
use strus_bindings.EventLoop.Thread.{
  fetch_found, fetch_job, complete_job, handle_message, read_message, read_messages, perform_again,
  perform_rounds, process_events,
}
use strus_bindings.EventLoop.Account.Jobs.{Quiet, resume-Ends}

module _ (o : Outside) where
  abbrev pub if_any : (msg_count : ℕ) → Act o Unit → Act o Unit
  if_any zero m = return tt
  if_any (suc n) m = m

  -- What `curl_multi_info_read` gives of a number of messages: none, or one and how many are left.
  abbrev pub Reads : (left : o.World → ℕ) → ℕ → Option CurlMsg × ℕ × o.World → Type 0
  Reads left zero (none, l, w) = l ≡ 0
  Reads left zero (some m, l, w) = ⊥
  Reads left (suc n) (none, l, w) = ⊥
  Reads left (suc n) (some m, l, w) = (l ≡ n) × (left w ≡ n)

  -- The queue of the messages, as libcurl documents it: the end of a request adds none.
  pub record Queue : Type 0 where
    pub left : o.World → ℕ
    pub reads : (w : o.World) → Reads left (left w) (o.info_read w)
    pub remove : (h : ℕ) (w : o.World) → left (o.remove_handle h w) ≤ left w
    pub cleanup : (h : ℕ) (w : o.World) → left (o.easy_cleanup h w) ≤ left w

  module _ (q : Queue) where
    abbrev AtMost : ℕ → Loop o → Type 0
    AtMost n s = q.left s.world ≤ n

    abbrev pub Never : Exception → Loop o → Type 0
    Never e s = ⊥

    fetch_found-Ends :
        (n h : ℕ) (f : Option Job) (s : Loop o)
        → AtMost n s
        → Ends (λ _. AtMost n) Never (fetch_found o h f s)
    unfolding fetch_found put_activated
    fetch_found-Ends n h none s k = k
    fetch_found-Ends n h (some j) s k = k

    complete_job-Ends :
        (n h : ℕ) (b : Bool) (f : Option Job) (s : Loop o)
        → Quiet o
        → AtMost n s
        → Ends (λ _. AtMost n) Never (complete_job o h b f s)
    unfolding complete_job outside_do destroy_job delete_receiver note
    complete_job-Ends n h b none s quiet k = k
    complete_job-Ends n h b (some j) s quiet k =
        let s1 : Loop o = record s { world = o.remove_handle h s.world } in
        Ends-bind (λ _. AtMost n) (λ _. AtMost n) Never (resume o j b s1) (λ _. destroy_job o j)
          (resume-Ends o (AtMost n) Never j b s1 quiet (λ a. omega (arith, q.remove h s.world, k)))
          (λ _ s2 k2. omega (arith, q.cleanup j.message.handle s2.world, k2))

    handle_message-Ends :
        (n : ℕ) (m : CurlMsg) (s : Loop o)
        → Quiet o
        → AtMost n s
        → Ends (λ _. AtMost n) Never (handle_message o m s)
    unfolding handle_message fetch_job
    handle_message-Ends n (done h b) s quiet k =
        Ends-bind (λ _. AtMost n) (λ _. AtMost n) Never (fetch_job o h s) (complete_job o h b)
          (fetch_found-Ends n h (find_job h s.activated_map) s k)
          (λ f s1. complete_job-Ends n h b f s1 quiet)
    handle_message-Ends n other_msg s quiet k = k

    abbrev pub NoneLeft : ℕ × ℕ → Loop o → Type 0
    NoneLeft x s = x.0 ≡ 0

    read_message-Ends :
        (n c : ℕ) (again : ℕ → ℕ → Act o (ℕ × ℕ)) (r : Option CurlMsg × ℕ × o.World) (s : Loop o)
        → Quiet o
        → Reads q.left n r
        → ((l c : ℕ) (s : Loop o) → suc (q.left s.world) ≤ n → Ends NoneLeft Never (again l c s))
        → Ends NoneLeft Never (read_message o again c (r.0, r.1) (record s { world = r.2 }))
    unfolding read_message
    read_message-Ends zero c again (none, l, w) s quiet h f = h
    read_message-Ends zero c again (some m, l, w) s quiet h f = absurd h
    read_message-Ends (suc n) c again (none, l, w) s quiet h f = absurd h
    read_message-Ends (suc n) c again (some m, l, w) s quiet h f =
        Ends-bind (λ _. AtMost n) NoneLeft Never (handle_message o m (record s { world = w }))
          (λ _. again l (suc c))
          (handle_message-Ends n m (record s { world = w }) quiet (omega (arith, h.1)))
          (λ _ s1 k. f l (suc c) s1 (omega (arith, k)))

    -- The inner loop ends with no message left, if the fuel is more than the messages.
    pub read_messages-Ends :
        (fuel l c : ℕ) (s : Loop o)
        → Quiet o
        → q.left s.world < fuel
        → Ends NoneLeft Never (read_messages o fuel l c s)
    unfolding read_messages outside
    read_messages-Ends zero l c s quiet k = absurd (omega (arith, k))
    read_messages-Ends (suc fuel) zero c s quiet k = refl
    read_messages-Ends (suc fuel) (suc l) c s quiet k =
        read_message-Ends (q.left s.world) c (read_messages o fuel) (o.info_read s.world) s quiet
          (q.reads s.world)
          (λ l1 c1 s1 k1. read_messages-Ends fuel l1 c1 s1 quiet (omega (arith, k, k1)))

    -- one call of `curl_multi_perform` whose messages are read, and, if there are some, another
    -- one whose messages are not
    abbrev pub one_batch : (fuel : ℕ) → Act o Unit
    one_batch fuel = do
      _ ← outside_do o o.perform
      counts ← read_messages o fuel 1 0
      if_any counts.1 (outside_do o o.perform)

    perform_again-one_batch :
        (fuel : ℕ) (r : Result Exception (ℕ × ℕ) × Loop o)
        → Ends NoneLeft Never r
        → go_on (perform_again o (perform_rounds o (suc fuel) 1)) r
          ≡ go_on (λ counts. if_any counts.1 (outside_do o o.perform)) r
    unfolding perform_again perform_rounds read_messages outside_do
    perform_again-one_batch fuel (err e, s) h = absurd h
    perform_again-one_batch fuel (ok (l, zero), s) h = refl
    perform_again-one_batch fuel (ok (l, suc c), s) h = rw h refl

    -- If the fuel is more than the messages that the first `curl_multi_perform` leaves to read, and
    -- no receiver throws, then `processEvents` reads these messages, and if there was one, calls
    -- `curl_multi_perform` a second time and ends without reading what that call completes.
    pub process_events-one_batch :
        (fuel : ℕ) (s : Loop o)
        → Quiet o
        → q.left (o.perform s.world) < fuel
        → process_events o fuel 2 s ≡ one_batch fuel s
    unfolding process_events perform_rounds outside_do
    process_events-one_batch zero s quiet k = absurd (omega (arith, k))
    process_events-one_batch (suc fuel) s quiet k =
        let s1 : Loop o = record s { world = o.perform s.world } in
        perform_again-one_batch fuel (read_messages o (suc fuel) 1 0 s1)
          (read_messages-Ends (suc fuel) 1 0 s1 quiet k)
