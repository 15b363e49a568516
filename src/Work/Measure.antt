-- ===== src/Work/Measure.antt =====
-- What the main thread, the results thread and the working threads have still to do.
use nnos.Prelude.{
  ℕ, zero, suc, ◌+◌, ◌-◌, ◌*◌, ◌≤◌, ◌<◌, ◌≡◌, refl, false, if◌then◌else◌, ltb, arith, ℕ_discrete,
  lt→ltb,
}
use mathlib.Core.Path.{subst}
use nnos.Work.{
  Sync, Work, Worker, WorkerPc, begin, announce, set_busy, set_done, ended, MainPc, await_slot,
  scan, assign, create, launch, store_id, failed, join_results, returned, ResultsPc, test,
  await_start, join, free, signal, collected, write, is_ended, worker, Sys, now_at, step_worker,
  step,
}

unfoldable pub sum : (ℕ → ℕ) → ℕ → ℕ
sum f zero = 0
sum f (suc n) = sum f n + f n

pub sum-le : (f g : ℕ → ℕ) (n : ℕ) → ((k : ℕ) → f k ≤ g k) → sum f n ≤ sum g n
unfolding sum
sum-le f g zero le = omega arith
sum-le f g (suc n) le = omega (arith, sum-le f g n le, le n)

pub sum-less :
    (f g : ℕ → ℕ) (n k : ℕ) → ((j : ℕ) → f j ≤ g j) → k < n → f k < g k → sum f n < sum g n
unfolding sum
sum-less f g zero k le lt less = absurd (omega (arith, lt))
sum-less f g (suc n) k le lt less = elim (ℕ_discrete k n) [
  | yes last ↦ omega (arith, sum-le f g n le, subst (λ i. f i < g i) last less)
  | no before ↦ omega (arith, sum-less f g n k le (omega (arith, lt, before)) less, le n)
]

-- the steps that a working thread has left
abbrev pub rank : WorkerPc → ℕ
rank begin = 4
rank (announce w) = 3
rank set_busy = 2
rank set_done = 1
rank ended = 0

module _ (y : Sync) (n m : ℕ) where
  abbrev pub main_left : MainPc → ℕ
  main_left (await_slot w) = (n - w) * (m + 6)
  main_left (scan w i) = (n - w) * (m + 6) - (i + 1)
  main_left (assign w i) = (n - (w + 1)) * (m + 6) + 4
  main_left (create w i) = (n - (w + 1)) * (m + 6) + 3
  main_left (launch w i) = (n - (w + 1)) * (m + 6) + 2
  main_left (store_id w i k) = 0
  main_left failed = 0
  main_left join_results = 1
  main_left returned = 0

  abbrev pub results_left : ResultsPc → ℕ
  results_left (test w) = (n - w) * 5 + 1
  results_left (await_start w) = (n - w) * 5
  results_left (join w) = (n - w) * 5 - 1
  results_left (free w) = (n - w) * 5 - 2
  results_left (signal w) = (n - w) * 5 - 3
  results_left collected = 0

  -- a working thread that does not exist yet has one step more
  abbrev pub worker_left : (made : ℕ) → (ℕ → Worker) → ℕ → ℕ
  worker_left made u k = if ltb k made then rank (u k).pc else 5

  unfoldable pub measure : Sys y → ℕ
  measure s = main_left s.main + results_left s.results + sum (worker_left s.created s.workers) n

  moved_less :
      (s : Sys y) (k : ℕ) (q : y.State) (f : ℕ → Work) (p : WorkerPc)
      → k < s.created
      → k < n
      → rank p < rank (s.workers k).pc
      → measure (now_at y n m (record s { sync = q; work = f }) k p) < measure s
  unfolding measure
  moved_less s k q f p made lt less =
      let u = write s.workers k (record (s.workers k) { pc = p }) in
      let smaller =
        sum-less (worker_left s.created u) (worker_left s.created s.workers) n k
          (λ j. ground (arith, less)) lt (ground (arith, made, less)) in
      omega (arith, smaller)

  runs :
      (s : Sys y) (k : ℕ) (p : WorkerPc)
      → (s.workers k).pc ≡ p
      → k < s.created
      → k < n
      → is_ended p ≡ false
      → measure (step_worker y n m k p s) < measure s
  unfolding step_worker
  runs s k begin e made lt h = moved_less s k _ _ _ made lt (ground (arith, e))
  runs s k (announce w) e made lt h = moved_less s k _ _ _ made lt (ground (arith, e))
  runs s k set_busy e made lt h = moved_less s k _ _ _ made lt (ground (arith, e))
  runs s k set_done e made lt h = moved_less s k _ _ _ made lt (ground (arith, e))
  runs s k ended e made lt h = cc

  -- A working thread that has not ended can go on.
  pub worker_moves :
      (s : Sys y) (k : ℕ)
      → k < s.created
      → k < n
      → is_ended (s.workers k).pc ≡ false
      → measure (step y n m s (worker k)) < measure s
  unfolding step
  worker_moves s k made lt h =
      rw (step, lt→ltb k s.created made) (runs s k (s.workers k).pc refl made lt h)

  pub next_left :
      (w : ℕ)
      → w < n
      → main_left (if ltb (w + 1) n then await_slot (w + 1) else join_results)
        < main_left (launch w 0)
  next_left w lt = ground arith

  pub scan_less : (w i : ℕ) → w < n → i < m → main_left (assign w i) < main_left (scan w i)
  scan_less w i lt inside = grind arith

  pub pass_less : (w i : ℕ) → w < n → i < m → main_left (scan w (i + 1)) < main_left (scan w i)
  pass_less w i lt inside = grind arith
