-- ===== src/EventLoop/Account.antt =====
-- The account of the receivers of the event loop (src/webrequest/curlEventLoop.cpp): how often they
-- are sent, waited for and answered.
pub mod Jobs
pub mod Thread
pub mod Messages
pub mod Client
pub mod Run
use strus_bindings.Base.{
  ℕ, zero, suc, ◌+◌, ◌<◌, ◌≤◌, ◌≡◌, refl, Bool, true, false, Option, none, some, List, [], ◌∷◌,
  ◌++◌, if◌then◌else◌, ◌==◌, ltb, Bool-cases, inl, inr, arith,
}
use strus_bindings.EventLoop.State.{
  Event, sent, put_answer, delete, call_ticker, Outside, Job, job_handle, ActivatedMap, find_job,
  erase_job, assign_job, Loop,
}

abbrev pub one_if : Bool → ℕ
one_if b = if b then 1 else 0

abbrev pub is_answer : ℕ → Event → Bool
is_answer r (put_answer q a) = r == q
is_answer r (sent q) = false
is_answer r (delete q) = false
is_answer r (call_ticker t) = false

abbrev pub is_sent : ℕ → Event → Bool
is_sent r (sent q) = r == q
is_sent r (put_answer q a) = false
is_sent r (delete q) = false
is_sent r (call_ticker t) = false

abbrev pub count_events : (Event → Bool) → List Event → ℕ
count_events f [] = 0
count_events f (e ∷ es) = one_if (f e) + count_events f es

pub count_events-append :
    (f : Event → Bool) (es : List Event) (e : Event)
    → count_events f (es ++ (e ∷ [])) ≡ one_if (f e) + count_events f es
count_events-append f [] e = refl
count_events-append f (d ∷ es) e = omega (arith, count_events-append f es e)

abbrev pub answers : ℕ → List Event → ℕ
answers r = count_events (is_answer r)

abbrev pub sends : ℕ → List Event → ℕ
sends r = count_events (is_sent r)

abbrev pub held : ℕ → Job → ℕ
held r j = one_if (r == j.receiver)

abbrev pub waiting : ℕ → List Job → ℕ
waiting r [] = 0
waiting r (j ∷ js) = held r j + waiting r js

abbrev pub activated : ℕ → ActivatedMap → ℕ
activated r [] = 0
activated r ((h, j) ∷ m) = held r j + activated r m

pub waiting-append :
    (r : ℕ) (js : List Job) (j : Job) → waiting r (js ++ (j ∷ [])) ≡ held r j + waiting r js
waiting-append r [] j = refl
waiting-append r (i ∷ js) j = omega (arith, waiting-append r js j)

-- The keys of the map rise, from the one bound to below the other, and each is the handle of its job.
abbrev pub Keyed : (low : ℕ) → ActivatedMap → (high : ℕ) → Type 0
Keyed low [] high = low ≤ high
Keyed low ((h, j) ∷ m) high = (low ≤ h) × (job_handle j ≡ h) × Keyed (suc h) m high

-- The handles of the jobs rise, from the one bound to below the other.
abbrev pub Rising : (low : ℕ) → List Job → (high : ℕ) → Type 0
Rising low [] high = low ≤ high
Rising low (j ∷ js) high = (low ≤ job_handle j) × Rising (suc (job_handle j)) js high

pub Keyed-lower : (a b : ℕ) (m : ActivatedMap) (n : ℕ) → a ≤ b → Keyed b m n → Keyed a m n
Keyed-lower a b [] n l k = omega arith
Keyed-lower a b ((h, j) ∷ m) n l k = (omega (arith, k.0), k.1, k.2)

pub Keyed-widen : (a : ℕ) (m : ActivatedMap) (n k : ℕ) → n ≤ k → Keyed a m n → Keyed a m k
Keyed-widen a [] n k l r = omega arith
Keyed-widen a ((h, j) ∷ m) n k l r = (r.0, r.1, Keyed-widen (suc h) m n k l r.2)

Keyed-bounds : (a : ℕ) (m : ActivatedMap) (n : ℕ) → Keyed a m n → a ≤ n
Keyed-bounds a [] n k = k
Keyed-bounds a ((h, j) ∷ m) n k = omega (arith, k.0, Keyed-bounds (suc h) m n k.2)

pub Rising-widen : (a : ℕ) (js : List Job) (n k : ℕ) → n ≤ k → Rising a js n → Rising a js k
Rising-widen a [] n k h r = omega arith
Rising-widen a (j ∷ js) n k h r = (r.0, Rising-widen (suc (job_handle j)) js n k h r.1)

pub Rising-append :
    (a : ℕ) (js : List Job) (j : Job) (n : ℕ)
    → Rising a js (job_handle j)
    → job_handle j < n
    → Rising a (js ++ (j ∷ [])) n
Rising-append a [] j n r h = (r, h)
Rising-append a (i ∷ js) j n r h = (r.0, Rising-append (suc (job_handle i)) js j n r.1 h)

pub Keyed-assign :
    (a : ℕ) (j : Job) (m : ActivatedMap)
    → Keyed a m (job_handle j)
    → Keyed a (assign_job (job_handle j) j m) (suc (job_handle j))
unfolding assign_job
Keyed-assign a j [] k = (k, refl, omega arith)
Keyed-assign a j ((i, x) ∷ m) k =
    let above = Keyed-bounds (suc i) m (job_handle j) k.2 in
    let other : (job_handle j == i) ≡ false = ground (arith, above) in
    let behind : ltb (job_handle j) i ≡ false = ground (arith, above) in
    rw other (rw behind (k.0, k.1, Keyed-assign (suc i) j m k.2))

pub activated-assign :
    (r a h : ℕ) (j : Job) (m : ActivatedMap)
    → Keyed a m h
    → activated r (assign_job h j m) ≡ held r j + activated r m
unfolding assign_job
activated-assign r a h j [] k = refl
activated-assign r a h j ((i, x) ∷ m) k =
    ground (arith, Keyed-bounds (suc i) m h k.2, activated-assign r (suc i) h j m k.2)

pub Keyed-erase : (a h : ℕ) (m : ActivatedMap) (n : ℕ) → Keyed a m n → Keyed a (erase_job h m) n
unfolding erase_job
Keyed-erase a h [] n k = k
Keyed-erase a h ((i, x) ∷ m) n k = elim (Bool-cases (h == i)) [
  | inl e ↦ rw e (Keyed-lower a (suc i) m n (omega (arith, k.0)) k.2)
  | inr e ↦ rw e (k.0, k.1, Keyed-erase (suc i) h m n k.2)
]

pub activated-erase :
    (r h : ℕ) (m : ActivatedMap) (j : Job)
    → find_job h m ≡ some j
    → held r j + activated r (erase_job h m) ≡ activated r m
unfolding find_job erase_job
activated-erase r h [] j e = ground arith
activated-erase r h ((i, x) ∷ m) j e = ground (arith, activated-erase r h m j)
