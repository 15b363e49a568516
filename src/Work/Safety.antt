-- ===== src/Work/Safety.antt =====
-- What every schedule of the main thread, the results thread and the working threads guarantees.
use nnos.Prelude.{
  ℕ, zero, suc, ◌<◌, ◌≡◌, ◌≢◌, inl, inr, refl, true, false, ltb, List, [], ◌∷◌, arith, Bool-cases,
  ltb→lt, ap, sym, ◌∙◌,
}
use mathlib.Core.Path.{subst}
use nnos.Work.{
  Sync, Slot, completed, Worker, failed, returned, ResultsPc, test, is_ended, has_collected, Turn,
  main, results, worker, Sys, next_work, step, run, start,
}
use nnos.Work.Count.{IsSync, count}
use nnos.Work.Invariant.{Inv, MainOk, freed, taking}
use nnos.Work.MainSteps.{main-Inv}
use nnos.Work.ResultsSteps.{results-Inv}
use nnos.Work.WorkerSteps.{worker-Inv, still_held}

-- the semaphores as they are initialized: one unit for each thread, and no computation started
pub record IsFresh {y : Sync} (law : IsSync y) (num_threads : ℕ) (q : y.State) : Type 0 where
  pub all_available : law.available q ≡ num_threads
  pub none_running : (w : ℕ) → law.running w q ≡ 0

pub count-all : (m : ℕ) (x : Slot) → x.available ≡ true → count (λ i. x) m ≡ m
unfolding count
count-all zero x e = refl
count-all (suc m) x e = ground (arith, e, count-all m x e)

-- the state to which a schedule leads
abbrev pub after : (y : Sync) (n m : ℕ) → y.State → List Turn → Sys y
after y n m q ts = run y n m ts (start y n m q)

module _ (y : Sync) (law : IsSync y) (n m : ℕ) where
  first-MainOk :
      (t : ℕ → Slot) (u : ℕ → Worker)
      → MainOk n m t u 0 (test 0) (next_work y n m 0) × (taking (next_work y n m 0) ≡ 0)
  first-MainOk t u = elim (Bool-cases (ltb 0 n)) [
    | inl some ↦ rw some ((refl, ltb→lt 0 n some), refl)
    | inr none ↦ rw none (ground (arith, none), refl)
  ]

  pub start-Inv : (q : y.State) → IsFresh law m q → Inv y law n m (start y n m q)
  start-Inv q fresh =
      let s = start y n m q in
      let (ok, none_taken) = first-MainOk s.threads s.workers in
      record {
        slots = omega (arith, fresh.all_available, none_taken, count-all m (s.threads 0) refl);
        main_ok = ok;
        results_ok = omega arith;
        held = λ k a b. absurd (omega (arith, b));
        gone = λ k a. absurd (omega (arith, a));
        index = λ k a b. absurd (omega (arith, a));
        local = λ k w a b. absurd (omega (arith, a));
        announced = λ k a. absurd (omega (arith, a, fresh.none_running k));
        done_work = λ k a b. absurd (omega (arith, a));
      }

  pub step-Inv : (s : Sys y) (t : Turn) → Inv y law n m s → Inv y law n m (step y n m s t)
  unfolding step
  step-Inv s main v = main-Inv y law n m s.main s v
  step-Inv s results v = results-Inv y law n m s.results s v
  step-Inv s (worker k) v = elim (Bool-cases (ltb k s.created)) [
    | inl made ↦
        rw (step, made) (worker-Inv y law n m k (s.workers k).pc s refl (ltb→lt k s.created made) v)
    | inr not_yet ↦ rw (step, not_yet) v
  ]

  pub run-Inv : (ts : List Turn) (s : Sys y) → Inv y law n m s → Inv y law n m (run y n m ts s)
  unfolding run
  run-Inv [] s v = v
  run-Inv (t ∷ ts) s v = run-Inv ts (step y n m s t) (step-Inv s t v)

  reached : (q : y.State) (ts : List Turn) → IsFresh law m q → Inv y law n m (after y n m q ts)
  reached q ts fresh = run-Inv ts (start y n m q) (start-Inv q fresh)

  -- With semaphores that behave as documented and start with one unit for each thread, and a
  -- pthread_create that stores the id of the new thread before that thread runs, get_available_thread
  -- always finds a free thread once its semaphore has let it on: the main thread
  -- never exits for want of one, whatever the schedule.
  pub always_finds :
      (q : y.State) (ts : List Turn) → IsFresh law m q → (after y n m q ts).main ≢ failed
  always_finds q ts fresh e =
      let s = after y n m q ts in
      subst (MainOk n m s.threads s.workers s.created s.results) e (reached q ts fresh).main_ok

  -- With semaphores that behave as documented and start with one unit for each thread, and a
  -- pthread_create that stores the id of the new thread before that thread runs, two working threads that have both not ended use different entries of the
  -- array of threads, both within its bounds, whatever the schedule.
  pub no_sharing :
      (q : y.State) (ts : List Turn) (j k : ℕ)
      → IsFresh law m q
      → j < (after y n m q ts).created
      → k < (after y n m q ts).created
      → is_ended ((after y n m q ts).workers j).pc ≡ false
      → is_ended ((after y n m q ts).workers k).pc ≡ false
      → j ≢ k
      → let s = after y n m q ts in
        ((s.workers j).thread_idx < m)
        × ((s.workers k).thread_idx < m)
        × ((s.workers j).thread_idx ≢ (s.workers k).thread_idx)
  no_sharing q ts j k fresh a b c d ne =
      let s = after y n m q ts in
      let v = reached q ts fresh in
      let h = v.held j (still_held y law n m s j v a c) a in
      let g = v.held k (still_held y law n m s k v b d) b in
      (h.in_range, g.in_range, λ e. ne (sym h.own_id ∙ ap (λ i. (s.threads i).id) e ∙ g.own_id))

  collected_freed : (r : ResultsPc) → has_collected r ≡ true → freed n m r ≡ n
  collected_freed r h = ground (arith, h)

  -- With semaphores that behave as documented and start with one unit for each thread, and a
  -- pthread_create that stores the id of the new thread before that thread runs, when do_all has joined the results thread, every computation has been done
  -- by a working thread of its own, which has ended, whatever the schedule.
  pub all_completed :
      (q : y.State) (ts : List Turn) (w : ℕ)
      → IsFresh law m q
      → (after y n m q ts).main ≡ returned
      → w < n
      → let s = after y n m q ts in
        (s.created ≡ n) × (is_ended (s.workers w).pc ≡ true) × ((s.work w).state ≡ completed)
  all_completed q ts w fresh e lt =
      let s = after y n m q ts in
      let v = reached q ts fresh in
      let (all, over) = subst (MainOk n m s.threads s.workers s.created s.results) e v.main_ok in
      let (made, ended) = v.gone w (omega (arith, lt, collected_freed s.results over)) in
      (all, ended, v.done_work w made ended)
