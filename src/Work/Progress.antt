-- ===== src/Work/Progress.antt =====
-- From every state the main thread, the results thread and the working threads can come to their end.
use nnos.Prelude.{
  ℕ, zero, suc, ◌+◌, ◌-◌, ◌*◌, ◌≤◌, ◌<◌, ◌≡◌, ◌≢◌, ◌⊎◌, inl, inr, refl, true, none, ltb, List, [],
  ◌∷◌, ◌++◌, arith, dec_lt, Bool-cases, Option-cases, ltb→lt, ap, sym, ◌∙◌,
}
use mathlib.Core.Path.{subst}
use nnos.Work.{
  Sync, Worker, WorkerPc, begin, MainPc, await_slot, scan, assign, create, launch, store_id, failed,
  join_results, returned, ResultsPc, test, await_start, join, free, signal, collected, write,
  is_ended, has_collected, Turn, main, results, worker, Sys, step_main, step_results, step, run,
  start,
}
use nnos.Work.Count.{IsSync}
use nnos.Work.Invariant.{Inv, MainOk, freed, taking, returning, has_announced}
use nnos.Work.Balance.{Balance, creating, heard, step-Balance, start-Balance}
use nnos.Work.Measure.{measure, worker_left, sum-le, worker_moves, next_left, scan_less, pass_less}
use nnos.Work.ResultsSteps.{joined_own}
use nnos.Work.Safety.{IsFresh, after, step-Inv, start-Inv, run-Inv}

-- a semaphore lets a thread wait only while its value is 0
pub record IsOpen {y : Sync} (law : IsSync y) : Type 0 where
  pub available_open : (s : y.State) → y.wait_available s ≡ none → law.available s ≡ 0
  pub running_open : (w : ℕ) (s : y.State) → y.wait_running w s ≡ none → law.running w s ≡ 0

module _ (y : Sync) (law : IsSync y) (isOpen : IsOpen law) (n m : ℕ) where
  -- some thread can make a step of what is left
  Moves : Sys y → Type 0
  Moves s = (t : Turn) × (measure y n m (step y n m s t) < measure y n m s)

  launch_moves :
      (s : Sys y) (w i : ℕ)
      → w < n
      → measure y n m (step_main y n m (launch w i) (record s { main = launch w i }))
        < measure y n m (record s { main = launch w i })
  unfolding measure step_main
  launch_moves s w i lt =
      let born : Worker = record { thread_idx = i; pc = begin } in
      let fewer =
        sum-le (worker_left y n m (s.created + 1) (write s.workers s.created born))
          (worker_left y n m s.created s.workers) n (λ j. ground arith) in
      omega (arith, fewer, next_left y n m w lt)

  main_moves :
      (p : MainPc) (s : Sys y)
      → Inv y law n m (record s { main = p })
      → ((w : ℕ) → p ≡ await_slot w → 1 ≤ law.available s.sync)
      → p ≢ returned
      → (p ≡ join_results → has_collected s.results ≡ true)
      → measure y n m (step_main y n m p (record s { main = p }))
        < measure y n m (record s { main = p })
  unfolding measure step_main
  main_moves (await_slot w) s v units going over = elim (Option-cases (y.wait_available s.sync)) [
    | inl stays ↦ absurd (omega (arith, units w refl, isOpen.available_open s.sync stays))
    | inr (q, e) ↦
        let lt : w < n = v.main_ok.1 in
        let pos : 1 ≤ (n - w) * (m + 6) = grind arith in rw (step_main, e) (omega (arith, pos))
  ]
  main_moves (scan w i) s v units going over = elim (Bool-cases (ltb i m)) [
    | inr out ↦ (let (_, _, (j, le, lt, _)) = v.main_ok in absurd (ground (arith, out, le, lt)))
    | inl inside ↦ elim (Bool-cases (s.threads i).available) [
      | inl opened ↦
          rw (step_main, inside, opened)
            (omega (arith, scan_less y n m w i v.main_ok.1 (ltb→lt i m inside)))
      | inr taken ↦
          rw (step_main, inside, taken)
            (omega (arith, pass_less y n m w i v.main_ok.1 (ltb→lt i m inside)))
    ]
  ]
  main_moves (assign w i) s v units going over = omega arith
  main_moves (create w i) s v units going over = rw (step_main, law.id_first_lem) (omega arith)
  main_moves (launch w i) s v units going over = launch_moves s w i v.main_ok.0.1
  main_moves (store_id w i k) s v units going over = absurd v.main_ok
  main_moves failed s v units going over = absurd v.main_ok
  main_moves join_results s v units going over = rw (step_main, over refl) (omega arith)
  main_moves returned s v units going over = absurd (going refl)

  main_turn :
      (s : Sys y)
      → Inv y law n m s
      → ((w : ℕ) → s.main ≡ await_slot w → 1 ≤ law.available s.sync)
      → s.main ≢ returned
      → (s.main ≡ join_results → has_collected s.results ≡ true)
      → Moves s
  unfolding Moves step
  main_turn s v units going over = (main, main_moves s.main s v units going over)

  -- Only computations that have a working thread have been collected.
  freed_made : (s : Sys y) → Inv y law n m s → freed n m s.results ≤ s.created
  freed_made s v = elim (dec_lt s.created (freed n m s.results)) [
    | yes lt ↦ absurd (omega (arith, (v.gone s.created lt).0))
    | no ge ↦ omega (arith, ge)
  ]

  -- While the results thread waits for a computation that has no working thread yet, all threads are
  -- free.
  all_free :
      (s : Sys y) (w x : ℕ)
      → Inv y law n m s
      → Balance y law n m s
      → s.results ≡ await_start w
      → s.created ≤ w
      → s.main ≡ await_slot x
      → m ≤ law.available s.sync
  all_free s w x v b e late at =
      let none_back : returning s.results ≡ 0 = ap returning e in
      let gone : freed n m s.results ≡ w = ap (freed n m) e in
      let none_taken : taking s.main ≡ 0 = ap taking at in
      let none_made : creating s.main ≡ 0 = ap creating at in
      omega (arith, v.slots, b.numbers, freed_made s v)

  announced_ended : (p : WorkerPc) → is_ended p ≡ true → has_announced p ≡ true
  announced_ended p h = ground arith

  waits_for_worker :
      (s : Sys y) (w : ℕ)
      → Inv y law n m s
      → Balance y law n m s
      → s.results ≡ await_start w
      → 1 ≤ m
      → s.main ≢ returned
      → w < n
      → law.running w s.sync ≡ 0
      → Moves s
  unfolding Moves
  waits_for_worker s w v b e has_threads going lt unheard = elim (dec_lt w s.created) [
    | yes made ↦ (
      worker w,
      worker_moves y n m s w made lt (elim (Bool-cases (is_ended (s.workers w).pc)) [
        | inr runs ↦ runs
        | inl over ↦ absurd (
            omega (
              arith,
              unheard,
              b.waiting w made (announced_ended (s.workers w).pc over)
                  (subst (λ r. heard y law n m r ≤ w) (sym e) (omega arith)),
            ))
      ]),
    )
    | no late ↦
        main_turn s v
          (λ x at. omega (arith, has_threads, all_free s w x v b e (omega (arith, late)) at)) going
          (λ at. absurd (
            let all : s.created ≡ n =
              subst (MainOk n m s.threads s.workers s.created s.results) at v.main_ok in
            omega (arith, all, lt, late)))
  ]

  -- The results thread goes on, or what it waits for can.
  results_turn :
      (r : ResultsPc) (s : Sys y)
      → Inv y law n m (record s { results = r })
      → Balance y law n m (record s { results = r })
      → 1 ≤ m
      → s.main ≢ returned
      → Moves (record s { results = r })
  unfolding Moves step measure step_results
  results_turn (test w) s v b has_threads going = (
    results,
    elim (Bool-cases (ltb w n)) [
      | inl more ↦ rw (step_results, more) (omega arith)
      | inr last ↦ rw (step_results, last) (omega arith)
    ],
  )
  results_turn (await_start w) s v b has_threads going =
      elim (Option-cases (y.wait_running w s.sync)) [
        | inl stays ↦
            waits_for_worker (record s { results = await_start w }) w v b refl has_threads going
              v.results_ok (isOpen.running_open w s.sync stays)
        | inr (q, e) ↦ (results, rw (step_results, e) (omega (arith, v.results_ok)))
      ]
  results_turn (join w) s v b has_threads going =
      let (lt, made, posted) = v.results_ok in
      let same = joined_own y law n m s w v in
      elim (Bool-cases (is_ended (s.workers w).pc)) [
        | inl over ↦ (results, rw (step_results, same, over) (omega (arith, lt)))
        | inr runs ↦ (worker w, worker_moves y n m (record s { results = join w }) w made lt runs)
      ]
  results_turn (free w) s v b has_threads going = (results, omega (arith, v.results_ok.0))
  results_turn (signal w) s v b has_threads going = (results, omega (arith, v.results_ok))
  results_turn collected s v b has_threads going =
      main_turn (record s { results = collected }) v
        (λ x at. absurd (
          let (a, lt) : (x ≡ s.created) × (x < n) =
            subst (MainOk n m s.threads s.workers s.created collected) at v.main_ok in
          omega (arith, a, lt, (v.gone s.created (omega (arith, a, lt))).0)))
        going (λ at. refl)

  returned-cases : (p : MainPc) → (p ≡ returned) ⊎ (p ≢ returned)
  returned-cases returned = inl refl
  returned-cases (await_slot w) = inr (λ e. cc)
  returned-cases (scan w i) = inr (λ e. cc)
  returned-cases (assign w i) = inr (λ e. cc)
  returned-cases (create w i) = inr (λ e. cc)
  returned-cases (launch w i) = inr (λ e. cc)
  returned-cases (store_id w i k) = inr (λ e. cc)
  returned-cases failed = inr (λ e. cc)
  returned-cases join_results = inr (λ e. cc)

  finish :
      (fuel : ℕ) (s : Sys y)
      → 1 ≤ m
      → measure y n m s < fuel
      → Inv y law n m s
      → Balance y law n m s
      → (ts : List Turn) × ((run y n m ts s).main ≡ returned)
  unfolding run Moves
  finish zero s some_threads less v b = absurd (omega arith)
  finish (suc fuel) s some_threads less v b = elim (returned-cases s.main) [
    | inl over ↦ ([], over)
    | inr going ↦
        let (t, fewer) = results_turn s.results s v b some_threads going in
        let (ts, over) =
          finish fuel (step y n m s t) some_threads (omega arith) (step-Inv y law n m s t v)
            (step-Balance y law n m s t v b) in
        (t ∷ ts, over)
  ]

  run-Balance :
      (ts : List Turn) (s : Sys y)
      → Inv y law n m s
      → Balance y law n m s
      → Balance y law n m (run y n m ts s)
  unfolding run
  run-Balance [] s v b = b
  run-Balance (t ∷ ts) s v b =
      run-Balance ts (step y n m s t) (step-Inv y law n m s t v) (step-Balance y law n m s t v b)

  run-append :
      (ts us : List Turn) (s : Sys y) → run y n m (ts ++ us) s ≡ run y n m us (run y n m ts s)
  unfolding run
  run-append [] us s = refl
  run-append (t ∷ ts) us s = run-append ts us (step y n m s t)

  -- With semaphores that behave as documented and start with one unit for each thread, of which there
  -- is at least one, and a pthread_create that stores the id before the new thread runs, every schedule can be continued until do_all has joined the results thread: no
  -- deadlock.
  pub do_all_can_return :
      (q : y.State) (ts : List Turn)
      → IsFresh law m q
      → 1 ≤ m
      → (us : List Turn) × ((after y n m q (ts ++ us)).main ≡ returned)
  do_all_can_return q ts fresh some_threads =
      let first = start y n m q in
      let v = start-Inv y law n m q fresh in
      let s = run y n m ts first in
      let (us, over) =
        finish (suc (measure y n m s)) s some_threads (omega arith) (run-Inv y law n m ts first v)
          (run-Balance ts first v (start-Balance y law n m q fresh)) in
      (us, ap (λ x. x.main) (run-append ts us first) ∙ over)
