-- ===== src/EventLoop/Account/Client.antt =====
-- `send`, `addTickerEvent` and `stop` (src/webrequest/curlEventLoop.cpp) on the account of a receiver.
use strus_bindings.Base.{
  ℕ, suc, ◌+◌, ◌<◌, ◌≡◌, refl, sym, subst, Bool, true, false, not, Option, none, some, List, [],
  ◌∷◌, ◌++◌, ◌==◌, Bytes, codes, arith,
}
use strus_bindings.Base.Action.{
  ◌>>=◌, throw, return, catch, for_each, Ends, Leaves, Ends-bind, Ends-recover, Ends-mono,
  Ends-when, Leaves-for_each,
}
use strus_bindings.WebRequest.ErrorCode.{ErrorCode}
use strus_bindings.EventLoop.Message.{CurlMessage, CurlOption, new_message, message_options}
use strus_bindings.EventLoop.State.{
  Exception, runtime_error, bad_alloc, unexpected, out_of_fuel, sent, delete, with_error, Outside,
  Job, job_handle, Loop, outside, outside_do, note, delete_receiver, put_waiting,
}
use strus_bindings.EventLoop.Jobs.{
  or_throw, set_curl_opt, set_log_options, open_log_if, next_handle, check_message, set_message,
  curl_message,
}
use strus_bindings.EventLoop.Client.{
  push_job, new_job, try_send, send_failed, send_caught, send, add_ticker_event, request_terminate,
  Call, send_call, ticker_call, terminate_call, call, calls,
}
use strus_bindings.EventLoop.Account.{
  one_if, is_answer, is_sent, count_events-append, answers, sends, waiting, activated,
  waiting-append, Rising-widen, Rising-append,
}
use strus_bindings.EventLoop.Account.Jobs.{
  Tidy, Owes-answer, Owes-delete, Quiet, Settled, emit-Ends,
}
use strus_bindings.EventLoop.Account.Thread.{Left}

module _ (o : Outside) where
  or_throw-Leaves :
      (P : Loop o → Type 0) (context : Bytes) (e : Option Bytes) (s : Loop o)
      → P s
      → Leaves P (or_throw o context e s)
  unfolding or_throw
  or_throw-Leaves P context none s k = k
  or_throw-Leaves P context (some e) s k = k

  -- setting options only changes the world
  set_curl_opt-Leaves :
      (P : Loop o → Type 0) (h : ℕ) (c : CurlOption) (s : Loop o)
      → ((w : o.World) (s : Loop o) → P s → P (record s { world = w }))
      → P s
      → Leaves P (set_curl_opt o h c s)
  unfolding set_curl_opt outside
  set_curl_opt-Leaves P h c s f k =
      or_throw-Leaves P (codes "failed set socket option: ") (o.easy_setopt h c s.world).0 _
        (f (o.easy_setopt h c s.world).1 s k)

  set_log_options-Leaves :
      (P : Loop o → Type 0) (h : ℕ) (e : Option Bytes) (s : Loop o)
      → ((w : o.World) (s : Loop o) → P s → P (record s { world = w }))
      → P s
      → Leaves P (set_log_options o h e s)
  unfolding set_log_options outside_do
  set_log_options-Leaves P h none s f k =
      Ends-bind (λ _. P) (λ _. P) (λ _. P) (set_curl_opt o h CurlOption.stderr s) _
        (set_curl_opt-Leaves P h CurlOption.stderr s f k)
        (λ _ s1. set_curl_opt-Leaves P h (CurlOption.verbose 1) s1 f)
  set_log_options-Leaves P h (some e) s f k = f (o.easy_cleanup h s.world) s k

  open_log_if-Leaves :
      (P : Loop o → Type 0) (b : Bool) (h : ℕ) (s : Loop o)
      → ((w : o.World) (s : Loop o) → P s → P (record s { world = w }))
      → P s
      → Leaves P (open_log_if o b h s)
  unfolding open_log_if outside
  open_log_if-Leaves P false h s f k = k
  open_log_if-Leaves P true h s f k =
      set_log_options-Leaves P h (o.open_log s.world).0
        (record s { world = (o.open_log s.world).1 }) f (f (o.open_log s.world).1 s k)

  -- the account within `send`, which owes the receiver one more answer
  abbrev Owing : (r q : ℕ) → Loop o → Type 0
  Owing r q s =
      (one_if (r == q) + answers r s.trace + waiting r s.waiting_list + activated r s.activated_map
        ≡ sends r s.trace)
      × Tidy s.activated_map s.waiting_list s.next_handle

  abbrev Owed : (r q : ℕ) → Exception → Loop o → Type 0
  Owed r q e s = Owing r q s

  -- What the constructor of the message leaves: a handle that is above those of all jobs.
  abbrev Fresh : (r q : ℕ) → ℕ → Loop o → Type 0
  Fresh r q h s =
      (one_if (r == q) + answers r s.trace + waiting r s.waiting_list + activated r s.activated_map
        ≡ sends r s.trace)
      × Tidy s.activated_map s.waiting_list h
      × (h < s.next_handle)

  Fresh-Owing : (r q h : ℕ) (s : Loop o) → Fresh r q h s → Owing r q s
  Fresh-Owing r q h s k = (
    k.0,
    record {
      bound = k.1.bound;
      keys = k.1.keys;
      rising =
          Rising-widen k.1.bound s.waiting_list h s.next_handle (omega (arith, k.2)) k.1.rising;
    },
  )

  check_message-Leaves :
      (P : Loop o → Type 0) (got : Bool) (s : Loop o) → P s → Leaves P (check_message o got s)
  unfolding check_message
  check_message-Leaves P got s k =
      Ends-bind (λ _. P) (λ _. P) (λ _. P) _ _
        (Ends-when (λ _. P) (λ _. P) (not o.globals_valid) _ s k k)
        (λ _ s1 k1. Ends-when (λ _. P) (λ _. P) (not got) _ s1 k1 k1)

  set_message-Ends :
      (P : Loop o → Type 0) (got : Bool) (m : CurlMessage) (s : Loop o)
      → ((w : o.World) (s : Loop o) → P s → P (record s { world = w }))
      → P s
      → Ends (λ m1 s1. (m1 ≡ m) × P s1) (λ _. P) (set_message o got m s)
  unfolding set_message
  set_message-Ends P got m s f k =
      let Q : CurlMessage → Loop o → Type 0 = λ m1 s1. (m1 ≡ m) × P s1 in
      Ends-bind (λ _. P) Q (λ _. P) (check_message o got s) _ (check_message-Leaves P got s k)
        (λ _ s1 k1.
          Ends-bind (λ _. P) Q (λ _. P) (for_each (set_curl_opt o m.handle) (message_options m) s1)
            _
            (Leaves-for_each P (set_curl_opt o m.handle) (message_options m) s1
              (λ c s2. set_curl_opt-Leaves P m.handle c s2 f) k1)
            (λ _ s2 k2.
              Ends-bind (λ _. P) Q (λ _. P) (open_log_if o o.log_info m.handle s2) _
                (open_log_if-Leaves P o.log_info m.handle s2 f k2) (λ _ s3 k3. (refl, k3))))

  curl_message-Ends :
      (r q : ℕ) (address method content : Bytes) (s : Loop o)
      → Owing r q s
      → Ends (λ m. Fresh r q m.handle) (Owed r q) (curl_message o address method content s)
  unfolding curl_message outside next_handle new_message
  curl_message-Ends r q address method content s k =
      let h = s.next_handle in
      let m = new_message h address method content in
      let s1 : Loop o = record s { world = (o.easy_init s.world).1; next_handle = suc h } in
      Ends-mono (λ m1 s2. (m1 ≡ m) × Fresh r q h s2) (λ m1. Fresh r q m1.handle) (λ _. Fresh r q h)
        (Owed r q) (set_message o (o.easy_init s.world).0 m s1)
        (λ m1 s2 p. subst (λ n. Fresh r q n.handle s2) (sym p.0) p.1)
        (λ _ s2 p. Fresh-Owing r q h s2 p)
        (set_message-Ends (Fresh r q h) (o.easy_init s.world).0 m s1 (λ w s2 p. p)
          (k.0, k.1, omega arith))

  delete_receiver-Owing :
      (r q : ℕ) (s : Loop o) → Owing r q s → Leaves (Owing r q) (delete_receiver o q s)
  unfolding delete_receiver note
  delete_receiver-Owing r q s k = (
    omega (
      arith,
      k.0,
      count_events-append (is_answer r) s.trace (delete q),
      count_events-append (is_sent r) s.trace (delete q),
    ),
    k.1,
  )

  new_job-Ends :
      (r q : ℕ) (address method content : Bytes) (s : Loop o)
      → Owing r q s
      → Ends
          (λ j s1. Fresh r q (job_handle j) s1 × (j.receiver ≡ q))
          (Owed r q)
          (new_job o address method content q s)
  unfolding new_job
  new_job-Ends r q address method content s k =
      Ends-bind (λ m. Fresh r q m.handle) (λ j s1. Fresh r q (job_handle j) s1 × (j.receiver ≡ q))
        (Owed r q) (catch (curl_message o address method content) _ s) _
        (Ends-recover (λ m. Fresh r q m.handle) (Owed r q) (Owed r q)
          (curl_message o address method content s) _
          (curl_message-Ends r q address method content s k)
          (λ e s1 k1.
            Ends-bind {B = CurlMessage} (λ _. Owing r q) (λ m. Fresh r q m.handle) (Owed r q)
              (delete_receiver o q s1) (λ _. throw e) (delete_receiver-Owing r q s1 k1)
              (λ _ s2 k2. k2)))
        (λ m s1 k1. (k1, refl))

  push_job-Ends :
      (r q : ℕ) (j : Job) (Q : Exception → Loop o → Type 0) (s : Loop o)
      → Fresh r q (job_handle j) s
      → j.receiver ≡ q
      → Ends (λ _. Settled o r) Q (push_job o j s)
  unfolding push_job put_waiting
  push_job-Ends r q j Q s h e = (
    rw (waiting-append r s.waiting_list j) (rw e (omega (arith, h.0))),
    record {
      bound = h.1.bound;
      keys = h.1.keys;
      rising = Rising-append h.1.bound s.waiting_list j s.next_handle h.1.rising h.2;
    },
  )

  try_send-Ends :
      (r q : ℕ) (address method content : Bytes) (s : Loop o)
      → Owing r q s
      → Ends (λ _. Settled o r) (Owed r q) (try_send o address method content q s)
  unfolding try_send outside_do
  try_send-Ends r q address method content s k =
      Ends-bind (λ _. Owing r q) (λ _. Settled o r) (Owed r q) _ _
        (Ends-when (λ _. Owing r q) (Owed r q) (not s.thread)
          (throw (runtime_error (codes "send failed because eventloop thread not started yet"))) s k
          k)
        (λ _ s1 k1.
          Ends-bind (λ j s2. Fresh r q (job_handle j) s2 × (j.receiver ≡ q)) (λ _. Settled o r)
            (Owed r q) (new_job o address method content q s1) _
            (new_job-Ends r q address method content s1 k1)
            (λ j s2 k2.
              Ends-bind {B = Bool} (λ _. Settled o r) (λ _. Settled o r) (Owed r q)
                (push_job o j s2) (λ _. ◌>>=◌ (outside_do o o.notify) (λ _. return true))
                (push_job-Ends r q j (Owed r q) s2 k2.0 k2.1) (λ _ s3 k3. k3)))

  send_failed-Leaves :
      (r q : ℕ) (c : ErrorCode) (msg : Bytes) (s : Loop o)
      → Quiet o
      → Owing r q s
      → Leaves (Settled o r) (send_failed o q c msg s)
  unfolding send_failed delete_receiver note
  send_failed-Leaves r q c msg s quiet k =
      Ends-bind (λ _. Settled o r) (λ _. Settled o r) (Left o r) _ _
        (emit-Ends o (Settled o r) (Left o r) q (with_error 500 c (some msg)) s quiet
          (Owes-answer r q _ s.trace s.waiting_list s.activated_map k.0, k.1))
        (λ _ s1 k1. (Owes-delete r q s1.trace s1.waiting_list s1.activated_map k1.0, k1.1))

  send_caught-Leaves :
      (r q : ℕ) (e : Exception) (s : Loop o)
      → Quiet o
      → Owing r q s
      → Leaves (Settled o r) (send_caught o q e s)
  unfolding send_caught
  send_caught-Leaves r q (runtime_error what) s quiet k = send_failed-Leaves r q _ what s quiet k
  send_caught-Leaves r q bad_alloc s quiet k = send_failed-Leaves r q _ _ s quiet k
  send_caught-Leaves r q unexpected s quiet k = send_failed-Leaves r q _ _ s quiet k
  send_caught-Leaves r q out_of_fuel s quiet k = send_failed-Leaves r q _ _ s quiet k

  send-Leaves :
      (r q : ℕ) (address method content : Bytes) (s : Loop o)
      → Quiet o
      → Settled o r s
      → Leaves (Settled o r) (send o address method content q s)
  unfolding send note
  send-Leaves r q address method content s quiet k =
      let s1 : Loop o = record s { trace = s.trace ++ (sent q ∷ []) } in
      Ends-recover (λ _. Settled o r) (Owed r q) (Left o r) (try_send o address method content q s1)
        (send_caught o q)
        (try_send-Ends r q address method content s1 (
          omega (
            arith,
            k.0,
            count_events-append (is_answer r) s.trace (sent q),
            count_events-append (is_sent r) s.trace (sent q),
          ),
          k.1,
        ))
        (λ e s2 k2. send_caught-Leaves r q e s2 quiet k2)

  call-Leaves :
      (r : ℕ) (c : Call) (s : Loop o) → Quiet o → Settled o r s → Leaves (Settled o r) (call o c s)
  unfolding call add_ticker_event request_terminate outside_do
  call-Leaves r (send_call address method content q) s quiet k =
      Ends-bind (λ _. Settled o r) (λ _. Settled o r) (Left o r) (send o address method content q s)
        (λ _. return tt) (send-Leaves r q address method content s quiet k) (λ _ s1 k1. k1)
  call-Leaves r (ticker_call t) s quiet k = k
  call-Leaves r terminate_call s quiet k = k

  pub calls-Leaves :
      (r : ℕ) (cs : List Call) (s : Loop o)
      → Quiet o
      → Settled o r s
      → Leaves (Settled o r) (calls o cs s)
  unfolding calls
  calls-Leaves r cs s quiet k =
      Leaves-for_each (Settled o r) (λ c. catch (call o c) (λ _. return tt)) cs s
        (λ c s1 k1.
          Ends-recover (λ _. Settled o r) (Left o r) (Left o r) (call o c s1) (λ _. return tt)
            (call-Leaves r c s1 quiet k1) (λ e s2 k2. k2))
        k
