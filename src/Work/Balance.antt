-- ===== src/Work/Balance.antt =====
-- How many threads are free, and which computations the results thread still has to hear of.
use nnos.Prelude.{
  ℕ, suc, ◌+◌, ◌≤◌, ◌<◌, ◌≡◌, inl, inr, refl, true, false, if◌then◌else◌, ltb, arith, ℕ_discrete,
  Bool-cases, Option-cases, ltb→lt, ap, sym, ◌∙◌,
}
use mathlib.Core.Path.{subst}
use nnos.Work.{
  Sync, Work, WorkerPc, begin, announce, set_busy, set_done, ended, MainPc, await_slot, scan,
  assign, create, launch, store_id, failed, join_results, returned, ResultsPc, test, await_start,
  join, free, signal, collected, write, is_ended, has_collected, Turn, main, results, worker, Sys,
  step_main, step_results, step_worker, step, start,
}
use nnos.Work.Count.{IsSync, count, count-write, count-same}
use nnos.Work.Invariant.{Inv, freed, has_announced}
use nnos.Work.Safety.{IsFresh, count-all}
use nnos.Work.ResultsSteps.{ended_begun}

-- the main thread has taken a thread for a working thread that it has not created
abbrev pub creating : MainPc → ℕ
creating (assign w i) = 1
creating (create w i) = 1
creating (launch w i) = 1
creating _ = 0

module _ (y : Sync) (law : IsSync y) (n m : ℕ) where
  -- how many computations the results thread has heard of
  abbrev pub heard : ResultsPc → ℕ
  heard (test w) = w
  heard (await_start w) = w
  heard (join w) = suc w
  heard (free w) = suc w
  heard (signal w) = suc w
  heard collected = n

  pub record Balance (s : Sys y) : Type 0 where
    pub numbers : count s.threads m + s.created + creating s.main ≡ m + freed n m s.results
    pub waiting :
        (k : ℕ)
        → k < s.created
        → has_announced (s.workers k).pc ≡ true
        → heard s.results ≤ k
        → 1 ≤ law.running k s.sync

  next_creating : (w : ℕ) → creating (if ltb w n then await_slot w else join_results) ≡ 0
  next_creating w = ground arith

  main-Balance :
      (p : MainPc) (s : Sys y)
      → Inv y law n m (record s { main = p })
      → Balance (record s { main = p })
      → Balance (step_main y n m p (record s { main = p }))
  unfolding step_main
  main-Balance (await_slot w) s v b = elim (Option-cases (y.wait_available s.sync)) [
    | inl stays ↦ rw (step_main, stays) b
    | inr (q, e) ↦
        let (less, same) = law.wait_available_lem s.sync q e in
        rw (step_main, e)
          (record {
            numbers = b.numbers;
            waiting = λ k x z h. omega (arith, b.waiting k x z h, same k);
          })
  ]
  main-Balance (scan w i) s v b = elim (Bool-cases (ltb i m)) [
    | inl inside ↦ elim (Bool-cases (s.threads i).available) [
      | inl opened ↦
          rw (step_main, inside, opened)
            (record {
              numbers = ground (
                arith,
                b.numbers,
                opened,
                count-write s.threads i (record (s.threads i) { available = false }) m
                    (ltb→lt i m inside),
              );
              waiting = b.waiting;
            })
      | inr taken ↦
          rw (step_main, inside, taken) (record { numbers = b.numbers; waiting = b.waiting })
    ]
    | inr out ↦ rw (step_main, out) (record { numbers = b.numbers; waiting = b.waiting })
  ]
  main-Balance (assign w i) s v b =
      let x = record (s.threads i) { w = w } in
      record {
        numbers = omega (arith, b.numbers, count-same s.threads i x m refl);
        waiting = b.waiting;
      }
  main-Balance (create w i) s v b =
      let x = record (s.threads i) { id = s.created } in
      rw (step_main, law.id_first_lem)
        (record {
          numbers = omega (arith, b.numbers, count-same s.threads i x m refl);
          waiting = b.waiting;
        })
  main-Balance (store_id w i k) s v b = absurd v.main_ok
  main-Balance (launch w i) s v b = record {
    numbers = omega (arith, b.numbers, next_creating (w + 1));
    waiting = λ k a z h. elim (ℕ_discrete k s.created) [
      | yes new ↦ absurd (ground (arith, new, z))
      | no old ↦ b.waiting k (omega (arith, a, old)) (ground (arith, old, z)) h
    ];
  }
  main-Balance failed s v b = b
  main-Balance join_results s v b = elim (Bool-cases (has_collected s.results)) [
    | inl over ↦ rw (step_main, over) (record { numbers = b.numbers; waiting = b.waiting })
    | inr still ↦ rw (step_main, still) b
  ]
  main-Balance returned s v b = b

  results-Balance :
      (r : ResultsPc) (s : Sys y)
      → Inv y law n m (record s { results = r })
      → Balance (record s { results = r })
      → Balance (step_results y n m r (record s { results = r }))
  unfolding step_results
  results-Balance (test w) s v b = elim (Bool-cases (ltb w n)) [
    | inl more ↦ rw (step_results, more) (record { numbers = b.numbers; waiting = b.waiting })
    | inr last ↦
        let same : w ≡ n = ground (arith, last, v.results_ok) in
        rw (step_results, last)
          (record {
            numbers = omega (arith, b.numbers, same);
            waiting = λ k a z h. b.waiting k a z (omega (arith, h, same));
          })
  ]
  results-Balance (await_start w) s v b = elim (Option-cases (y.wait_running w s.sync)) [
    | inl stays ↦ rw (step_results, stays) b
    | inr (q, e) ↦
        let (less, others, same) = law.wait_running_lem w s.sync q e in
        rw (step_results, e)
          (record {
            numbers = b.numbers;
            waiting = λ k a z h. omega (
              arith,
              b.waiting k a z (omega (arith, h)),
              others k (λ q. absurd (omega (arith, q, h))),
            );
          })
  ]
  results-Balance (join w) s v b =
      elim (Bool-cases (is_ended (s.workers (s.threads (s.work w).thread_index).id).pc)) [
        | inl over ↦ rw (step_results, over) (record { numbers = b.numbers; waiting = b.waiting })
        | inr not_yet ↦ rw (step_results, not_yet) b
      ]
  results-Balance (free w) s v b =
      let (lt, made, over) = v.results_ok in
      let h = v.held w (omega arith) made in
      let same = v.index w made (ended_begun y law n m (s.workers w).pc over) in
      let x = record (s.threads (s.workers w).thread_idx) { available = true } in
      rw same (record {
        numbers = ground (
          arith,
          b.numbers,
          h.taken,
          count-write s.threads (s.workers w).thread_idx x m h.in_range,
        );
        waiting = b.waiting;
      })
  results-Balance (signal w) s v b =
      let (more, same) = law.post_available_lem s.sync in
      record {
        numbers = omega (arith, b.numbers);
        waiting = λ k a z h. omega (arith, b.waiting k a z (omega (arith, h)), same k);
      }
  results-Balance collected s v b = b

  -- A worker that does not announce now changes no semaphore.
  quiet-Balance :
      (s : Sys y) (k : ℕ) (f : ℕ → Work) (p : WorkerPc)
      → Balance s
      → (has_announced p ≡ true → has_announced (s.workers k).pc ≡ true)
      → Balance
          (record s { work = f; workers = write s.workers k (record (s.workers k) { pc = p }) })
  quiet-Balance s k f p b before = record {
    numbers = b.numbers;
    waiting = λ j a z h. elim (ℕ_discrete j k) [
      | yes here ↦ ground (arith, here, z, before, b.waiting k (ground (arith, a, here)), h)
      | no there ↦ b.waiting j a (ground (arith, there, z)) h
    ];
  }

  worker-Balance :
      (k : ℕ) (p : WorkerPc) (s : Sys y)
      → (s.workers k).pc ≡ p
      → k < s.created
      → Inv y law n m s
      → Balance s
      → Balance (step_worker y n m k p s)
  unfolding step_worker
  worker-Balance k begin s e lt v b =
      quiet-Balance s k _ (announce _) b (λ h. absurd (ground (arith, h)))
  worker-Balance k (announce w) s e lt v b =
      let own = v.local k w lt e in
      let (more, others, same) = law.post_running_lem w s.sync in
      record {
        numbers = b.numbers;
        waiting = λ j a z h. elim (ℕ_discrete j k) [
          | yes here ↦
              subst (λ i. 1 ≤ law.running i (y.post_running w s.sync)) (own ∙ sym here)
                (omega (arith, more))
          | no there ↦
              omega
                (arith, others j (λ q. there (q ∙ own)), b.waiting j a (ground (arith, there, z)) h)
        ];
      }
  worker-Balance k set_busy s e lt v b = quiet-Balance s k _ set_done b (λ h. ap has_announced e)
  worker-Balance k set_done s e lt v b = quiet-Balance s k _ ended b (λ h. ap has_announced e)
  worker-Balance k ended s e lt v b = b

  pub start-Balance : (q : y.State) → IsFresh law m q → Balance (start y n m q)
  start-Balance q fresh = record {
    numbers = omega (arith, next_creating 0, count-all m ((start y n m q).threads 0) refl);
    waiting = λ k a z h. absurd (omega (arith, a));
  }

  pub step-Balance : (s : Sys y) (t : Turn) → Inv y law n m s → Balance s → Balance (step y n m s t)
  unfolding step
  step-Balance s main v b = main-Balance s.main s v b
  step-Balance s results v b = results-Balance s.results s v b
  step-Balance s (worker k) v b = elim (Bool-cases (ltb k s.created)) [
    | inl made ↦
        rw (step, made) (worker-Balance k (s.workers k).pc s refl (ltb→lt k s.created made) v b)
    | inr not_yet ↦ rw (step, not_yet) b
  ]
