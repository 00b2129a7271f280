-- ===== src/EventLoop/Tests.antt =====
-- The event loop (src/webrequest/curlEventLoop.cpp) with a concrete outside.
use strus_bindings.Base.{
  ℕ, ◌+◌, ◌<◌, ◌≡◌, refl, Bool, true, false, Option, none, some, [], ◌∷◌, ◌++◌, Bytes, codes,
  eq_bytes, is_empty, arith,
}
use strus_bindings.Base.Action.{Ends, Leaves}
use strus_bindings.Base.Int.{pos}
use strus_bindings.EventLoop.Message.{get_url, get_port, message_options, new_message}
use strus_bindings.EventLoop.State.{sent, delete, CurlMsg, done, timeout, Outside, Loop, new_loop}
use strus_bindings.EventLoop.Jobs.{curl_message}
use strus_bindings.EventLoop.Client.{send, Call, send_call, terminate_call}
use strus_bindings.EventLoop.Thread.{check_tick, process_events}
use strus_bindings.EventLoop.Run.{shut_down, run}
use strus_bindings.EventLoop.Account.{answers, sends, waiting}
use strus_bindings.EventLoop.Account.Jobs.{Settled}
use strus_bindings.EventLoop.Account.Run.{run-Settled}
use strus_bindings.EventLoop.Batches.{Queue, Never, one_batch, process_events-one_batch}
use strus_bindings.EventLoop.Termination.{run-answers}
use strus_bindings.EventLoop.SendErrors.{failure, send-deletes_twice}
use strus_bindings.EventLoop.Ticks.{Counted, repeat, check_tick-Counted}

port_example : get_port (codes "http://example.com:8080/query") ≡ pos 8080
unfolding get_port
port_example = refl

url_example : get_url (codes "http://example.com:8080/query") ≡ codes "http://example.com/query"
unfolding get_url
url_example = refl

-- libcurl with room for one request
data Slot : Type 0 where
  idle : Slot
  active finished : ℕ → Slot

abbrev add : ℕ → Slot → Option Bytes × Slot
add h idle = (none, active h)
add h (active k) = (some (codes "busy"), active k)
add h (finished k) = (some (codes "busy"), finished k)

abbrev perform : Slot → Slot
perform idle = idle
perform (active h) = finished h
perform (finished h) = finished h

abbrev read : Slot → Option CurlMsg × ℕ × Slot
read idle = (none, 0, idle)
read (active h) = (none, 0, active h)
read (finished h) = (some (done h true), 0, idle)

abbrev left : Slot → ℕ
left idle = 0
left (active h) = 0
left (finished h) = 1

abbrev one_slot : (globals_valid : Bool) → Outside
one_slot valid = record {
  World = Slot;
  globals_valid = valid;
  log_info = false;
  easy_init = λ w. (true, w);
  easy_setopt = λ h c w. (none, w);
  easy_cleanup = λ h w. w;
  open_log = λ w. (none, w);
  add_handle = add;
  remove_handle = λ h w. w;
  perform = perform;
  info_read = read;
  wait = λ w. (timeout, w);
  notify = λ w. w;
  consume = λ w. (none, w);
  response_code = λ h w. some 200;
  response_content = λ h w. codes "{}";
  response_error = λ h w. none;
  error_string = λ c. codes "error";
  answer_raises = λ tr e. none;
}

abbrev outside : Outside
outside = one_slot true

abbrev reads : (w : Slot) → strus_bindings.EventLoop.Batches.Reads outside left (left w) (read w)
reads idle = refl
reads (active h) = refl
reads (finished h) = (refl, refl)

abbrev queue : Queue outside
queue = record {
  left = left;
  reads = reads;
  remove = λ h w. omega arith;
  cleanup = λ h w. omega arith;
}

abbrev enough : (w : Slot) → left (perform w) < 2
enough idle = omega arith
enough (active h) = omega arith
enough (finished h) = omega arith

abbrev request : ℕ → Call
request r = send_call (codes "http://example.com:8080/query") (codes "GET") [] r

abbrev started : Loop outside
started = record (new_loop outside idle 1) { thread = true }

-- the first of two requests is answered with its content, the second one finds no room
answers_test :
    Leaves
      (λ s. (answers 3 s.trace ≡ 1) × (answers 4 s.trace ≡ 1) × (sends 4 s.trace ≡ 1))
      (run outside 2 ((request 3 ∷ request 4 ∷ []) ∷ (terminate_call ∷ []) ∷ []) started)
unfolding run new_loop message_options is_empty new_message eq_bytes
answers_test = (refl, refl, refl)

run-Settled_example :
    Leaves (Settled outside 3) (run outside 2 ((request 3 ∷ request 4 ∷ []) ∷ []) started)
unfolding new_loop
run-Settled_example =
    run-Settled outside 3 2 ((request 3 ∷ request 4 ∷ []) ∷ []) started (λ tr r a. refl)
      (refl, record { bound = 0; keys = omega arith; rising = omega arith })

run-answers_example :
    Ends
      (λ e s.
        (e ≡ shut_down)
        × (s.activated_map ≡ [])
        × (answers 3 s.trace + waiting 3 s.waiting_list ≡ sends 3 s.trace))
      (Never outside queue)
      (run outside 2 ((request 3 ∷ []) ∷ ((request 4 ∷ []) ++ (terminate_call ∷ [])) ∷ []) started)
run-answers_example =
    run-answers outside queue 2 ((request 3 ∷ []) ∷ []) [] (request 4 ∷ []) idle 1 3
      (record { quiet = λ tr r a. refl; tickers = λ tr t. tt; pipe = λ w. tt }) enough

abbrev performing : Loop outside
performing = record started { world = active 0 }

process_events-one_batch_example :
    process_events outside 2 2 performing ≡ one_batch outside queue 2 performing
process_events-one_batch_example =
    process_events-one_batch outside queue 2 performing (λ tr r a. refl) (omega arith)

check_tick-Counted_example :
    Ends
      (λ _ s1. (n : ℕ) × Counted outside 7 12 started s1 n)
      (λ _ _. ⊥)
      (repeat outside 12 (check_tick outside) started)
unfolding new_loop
check_tick-Counted_example = check_tick-Counted outside 7 12 started (λ tr t. refl) (omega arith)

abbrev invalid : Outside
invalid = one_slot false

abbrev ready : Loop invalid
ready = record (new_loop invalid idle 1) { thread = true }

abbrev failed : Loop invalid
failed = record ready { next_handle = 1; trace = sent 3 ∷ [] }

abbrev message : Bytes
message = codes "fatal: delegate connection globals initialization failed"

send-deletes_twice_example :
    Ends
      (λ b s2.
        (b ≡ false) × (s2.trace ≡ sent 3 ∷ delete 3 ∷ failure invalid 3 message ∷ delete 3 ∷ []))
      (λ _ _. ⊥)
      (send invalid (codes "localhost") (codes "GET") [] 3 ready)
unfolding new_loop curl_message
send-deletes_twice_example =
    send-deletes_twice invalid (codes "localhost") (codes "GET") [] 3 message ready failed
      (λ tr r a. refl) refl refl
