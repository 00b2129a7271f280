-- ===== src/EventLoop/SendErrors.antt =====
-- `send` of the event loop (src/webrequest/curlEventLoop.cpp) where it fails.
use strus_bindings.Base.{
  ℕ, ◌≡◌, refl, sym, subst, ap, ◌∙◌, Bool, true, false, not, some, [], ◌∷◌, ◌++◌, Bytes, codes,
  arith,
}
use strus_bindings.Base.Action.{throw, when, go_on, recover, Ends, Ends-bind}
use strus_bindings.Base.Result.{ok, err}
use strus_bindings.WebRequest.ErrorCode.{ErrorCode}
use strus_bindings.EventLoop.State.{
  Exception, runtime_error, Event, sent, put_answer, delete, with_error, Outside, Loop, Act, note,
  delete_receiver,
}
use strus_bindings.EventLoop.Jobs.{curl_message}
use strus_bindings.EventLoop.Client.{new_job, try_send, send_failed, send_caught, send}
use strus_bindings.EventLoop.Account.Jobs.{Quiet, emit-Ends}

module _ (o : Outside) where
  abbrev pub failure : (receiver : ℕ) → (what : Bytes) → Event
  failure q what = put_answer q (with_error 500 ErrorCode.delegate_request_failed (some what))

  send_failed-Ends :
      (q : ℕ) (what : Bytes) (s : Loop o)
      → Quiet o
      → Ends
          (λ b s1. (b ≡ false) × (s1.trace ≡ s.trace ++ (failure q what ∷ []) ++ (delete q ∷ [])))
          (λ _ _. ⊥)
          (send_failed o q ErrorCode.delegate_request_failed what s)
  unfolding send_failed delete_receiver note
  send_failed-Ends q what s quiet =
      Ends-bind (λ _ s1. s1.trace ≡ s.trace ++ (failure q what ∷ []))
        (λ b s1. (b ≡ false) × (s1.trace ≡ s.trace ++ (failure q what ∷ []) ++ (delete q ∷ [])))
        (λ _ _. ⊥) _ _
        (emit-Ends o (λ s1. s1.trace ≡ s.trace ++ (failure q what ∷ [])) (λ _ _. ⊥) q _ s quiet
          refl)
        (λ _ s1 h. (refl, ap (λ tr. tr ++ (delete q ∷ [])) h))

  -- the message of a thread that is not there
  abbrev pub not_started : Bytes
  not_started = codes "send failed because eventloop thread not started yet"

  when-throws : (b : Bool) (e : Exception) (s : Loop o) → b ≡ true → when b (throw e) s ≡ (err e, s)
  when-throws true e s h = refl
  when-throws false e s h = absurd (ground arith)

  when-skips : (b : Bool) (m : Act o Unit) (s : Loop o) → b ≡ false → when b m s ≡ (ok tt, s)
  when-skips false m s h = refl
  when-skips true m s h = absurd (ground arith)

  try_send-not_started :
      (address method content : Bytes) (q : ℕ) (s : Loop o)
      → s.thread ≡ false
      → try_send o address method content q s ≡ (err (runtime_error not_started), s)
  unfolding try_send
  try_send-not_started address method content q s h =
      ap (go_on _) (when-throws (not s.thread) (runtime_error not_started) s (ap not h))

  new_job-fails :
      (address method content : Bytes) (q : ℕ) (what : Bytes) (s s1 : Loop o)
      → curl_message o address method content s ≡ (err (runtime_error what), s1)
      → new_job o address method content q s
        ≡ (err (runtime_error what), record s1 { trace = s1.trace ++ (delete q ∷ []) })
  unfolding new_job delete_receiver note
  new_job-fails address method content q what s s1 h = rw h refl

  try_send-fails :
      (address method content : Bytes) (q : ℕ) (what : Bytes) (s s1 : Loop o)
      → s.thread ≡ true
      → curl_message o address method content s ≡ (err (runtime_error what), s1)
      → try_send o address method content q s
        ≡ (err (runtime_error what), record s1 { trace = s1.trace ++ (delete q ∷ []) })
  unfolding try_send
  try_send-fails address method content q what s s1 t h =
      ap (go_on _) (when-skips (not s.thread) (throw (runtime_error not_started)) s (ap not t))
      ∙ ap (go_on _) (new_job-fails address method content q what s s1 h)

  send-caught :
      (address method content : Bytes) (q : ℕ) (what : Bytes) (s s1 : Loop o)
      → Quiet o
      → try_send o address method content q (record s { trace = s.trace ++ (sent q ∷ []) })
        ≡ (err (runtime_error what), s1)
      → Ends
          (λ b s2. (b ≡ false) × (s2.trace ≡ s1.trace ++ (failure q what ∷ []) ++ (delete q ∷ [])))
          (λ _ _. ⊥)
          (send o address method content q s)
  unfolding send note send_caught
  send-caught address method content q what s s1 quiet h =
      subst
        (λ r.
          Ends
            (λ b s2.
              (b ≡ false) × (s2.trace ≡ s1.trace ++ (failure q what ∷ []) ++ (delete q ∷ [])))
            (λ _ _. ⊥) (recover (send_caught o q) r))
        (sym h) (send_failed-Ends q what s1 quiet)

  -- If the thread is not started and the receiver does not throw, then `send` answers it with an
  -- error of status 500, deletes it once and returns false, and these are its only effects on the
  -- receivers.
  pub send-not_started :
      (address method content : Bytes) (q : ℕ) (s : Loop o)
      → Quiet o
      → s.thread ≡ false
      → Ends
          (λ b s1.
            (b ≡ false)
            × (s1.trace
                ≡ s.trace ++ (sent q ∷ []) ++ (failure q not_started ∷ []) ++ (delete q ∷ [])))
          (λ _ _. ⊥)
          (send o address method content q s)
  send-not_started address method content q s quiet h =
      send-caught address method content q not_started s _ quiet (
        try_send-not_started address method content q
          (record s { trace = s.trace ++ (sent q ∷ []) }) h)

  -- If the thread is started and the constructor of the message throws a runtime error, and the
  -- receiver does not throw, then `send` returns false after it has deleted the receiver, answered
  -- it, and deleted it again.
  pub send-deletes_twice :
      (address method content : Bytes) (q : ℕ) (what : Bytes) (s s1 : Loop o)
      → Quiet o
      → s.thread ≡ true
      → curl_message o address method content (record s { trace = s.trace ++ (sent q ∷ []) })
        ≡ (err (runtime_error what), s1)
      → Ends
          (λ b s2.
            (b ≡ false)
            × (s2.trace ≡ s1.trace ++ (delete q ∷ []) ++ (failure q what ∷ []) ++ (delete q ∷ [])))
          (λ _ _. ⊥)
          (send o address method content q s)
  send-deletes_twice address method content q what s s1 quiet t h =
      send-caught address method content q what s _ quiet (
        try_send-fails address method content q what (record s { trace = s.trace ++ (sent q ∷ []) })
          s1 t h)
