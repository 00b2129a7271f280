-- ===== src/EventLoop/Account/Jobs.antt =====
-- The steps of the jobs of the event loop (src/webrequest/curlEventLoop.cpp) on the account of a
-- receiver.
use strus_bindings.Base.{
  ℕ, ◌+◌, ◌≡◌, sym, subst, Bool, Option, none, some, List, [], ◌∷◌, ◌++◌, ◌==◌, Bytes, arith,
}
use strus_bindings.Base.Action.{Ends, Leaves, Ends-recover}
use strus_bindings.WebRequest.ErrorCode.{ErrorCode}
use strus_bindings.EventLoop.State.{
  Exception, Answer, Event, put_answer, delete, call_ticker, Outside, Job, job_handle, ActivatedMap,
  find_job, Loop, outside_do, raise, emit, note, delete_receiver,
}
use strus_bindings.EventLoop.Jobs.{
  destroy_job, release_unless, release_job, drop_request, drop_on, answer_of, resume,
}
use strus_bindings.EventLoop.Account.{
  one_if, is_answer, is_sent, count_events-append, answers, sends, waiting, activated, Keyed,
  Rising,
}

-- What the receiver has been sent is answered, waits or is active.
abbrev pub Owes : ℕ → List Event → List Job → ActivatedMap → Type 0
Owes r tr ws m = answers r tr + waiting r ws + activated r m ≡ sends r tr

-- The handles of the jobs rise from those that are active, which are their keys, to those that wait.
pub record Tidy (m : ActivatedMap) (ws : List Job) (next : ℕ) : Type 0 where
  pub bound : ℕ
  pub keys : Keyed 0 m bound
  pub rising : Rising bound ws next

pub Owes-answer :
    (r q : ℕ) (a : Answer) (tr : List Event) (ws : List Job) (m : ActivatedMap)
    → one_if (r == q) + answers r tr + waiting r ws + activated r m ≡ sends r tr
    → Owes r (tr ++ (put_answer q a ∷ [])) ws m
Owes-answer r q a tr ws m h = omega (
  arith,
  count_events-append (is_answer r) tr (put_answer q a),
  count_events-append (is_sent r) tr (put_answer q a),
)

pub Owes-delete :
    (r q : ℕ) (tr : List Event) (ws : List Job) (m : ActivatedMap)
    → Owes r tr ws m
    → Owes r (tr ++ (delete q ∷ [])) ws m
Owes-delete r q tr ws m h = omega (
  arith,
  count_events-append (is_answer r) tr (delete q),
  count_events-append (is_sent r) tr (delete q),
)

pub Owes-ticker :
    (r t : ℕ) (tr : List Event) (ws : List Job) (m : ActivatedMap)
    → Owes r tr ws m
    → Owes r (tr ++ (call_ticker t ∷ [])) ws m
Owes-ticker r t tr ws m h = omega (
  arith,
  count_events-append (is_answer r) tr (call_ticker t),
  count_events-append (is_sent r) tr (call_ticker t),
)

module _ (o : Outside) where
  -- No receiver throws.
  abbrev pub Quiet : Type 0
  Quiet = (tr : List Event) (r : ℕ) (a : Answer) → o.answer_raises tr (put_answer r a) ≡ none

  -- The account, with the lists of the jobs that wait and that are active.
  abbrev pub Balanced : ℕ → List Job → ActivatedMap → Loop o → Type 0
  Balanced r ws m s = Owes r s.trace ws m × Tidy m ws s.next_handle

  abbrev pub Settled : ℕ → Loop o → Type 0
  Settled r s = Balanced r s.waiting_list s.activated_map s

  pub emit-Ends :
      (P : Loop o → Type 0) (Q : Exception → Loop o → Type 0) (r : ℕ) (a : Answer) (s : Loop o)
      → Quiet
      → P (record s { trace = s.trace ++ (put_answer r a ∷ []) })
      → Ends (λ _. P) Q (emit o (put_answer r a) s)
  unfolding emit raise
  emit-Ends P Q r a s quiet h =
      subst
        (λ e. Ends (λ _. P) Q (raise o e (record s { trace = s.trace ++ (put_answer r a ∷ []) })))
        (sym (quiet s.trace r a)) h

  pub raise-Leaves :
      (P : Loop o → Type 0) (e : Option Exception) (s : Loop o) → P s → Leaves P (raise o e s)
  unfolding raise
  raise-Leaves P none s h = h
  raise-Leaves P (some e) s h = h

  pub drop_request-Ends :
      (P : Loop o → Type 0) (Q : Exception → Loop o → Type 0) (j : Job) (c : ErrorCode)
      (msg : Option Bytes) (s : Loop o)
      → Quiet
      → ((a : Answer) → P (record s { trace = s.trace ++ (put_answer j.receiver a ∷ []) }))
      → Ends (λ _. P) Q (drop_request o j c msg s)
  unfolding drop_request
  drop_request-Ends P Q j c msg s quiet h = emit-Ends P Q j.receiver _ s quiet (h _)

  pub resume-Ends :
      (P : Loop o → Type 0) (Q : Exception → Loop o → Type 0) (j : Job) (b : Bool) (s : Loop o)
      → Quiet
      → ((a : Answer) → P (record s { trace = s.trace ++ (put_answer j.receiver a ∷ []) }))
      → Ends (λ _. P) Q (resume o j b s)
  unfolding resume
  resume-Ends P Q j b s quiet h =
      Ends-recover (λ _. P) (λ _ _. ⊥) Q _ (drop_on o j)
        (emit-Ends P (λ _ _. ⊥) j.receiver (answer_of o j b s.world) s quiet (h _))
        (λ e s1 k. absurd k)

  -- the end of a job adds a deletion and changes the world
  pub destroy_job-Ends :
      (r : ℕ) (j : Job) (Q : Exception → Loop o → Type 0) (s : Loop o)
      → Settled r s
      → Ends (λ _. Settled r) Q (destroy_job o j s)
  unfolding destroy_job delete_receiver note outside_do
  destroy_job-Ends r j Q s h =
      (Owes-delete r j.receiver s.trace s.waiting_list s.activated_map h.0, h.1)

  release_unless-Ends :
      (r : ℕ) (i : Option Job) (j : Job) (Q : Exception → Loop o → Type 0) (s : Loop o)
      → Settled r s
      → Ends (λ _. Settled r) Q (release_unless o i j s)
  unfolding release_unless
  release_unless-Ends r none j Q s h = destroy_job-Ends r j Q s h
  release_unless-Ends r (some i) j Q s h = h

  pub release_job-Ends :
      (r : ℕ) (j : Job) (Q : Exception → Loop o → Type 0) (s : Loop o)
      → Settled r s
      → Ends (λ _. Settled r) Q (release_job o j s)
  unfolding release_job
  release_job-Ends r j Q s h =
      release_unless-Ends r (find_job (job_handle j) s.activated_map) j Q s h
