-- ===== src/Work/WorkerSteps.antt =====
-- The steps of a working thread keep the invariant.
use nnos.Prelude.{
  ℕ, ◌≤◌, ◌<◌, ◌≡◌, ◌≢◌, ◌⊎◌, inl, inr, refl, true, false, arith, ℕ_discrete, ap, sym, ◌∙◌, dec_lt,
}
use nnos.Work.{
  Sync, Slot, Work, Worker, busy, completed, WorkerPc, begin, announce, set_busy, set_done, ended,
  MainPc, await_slot, scan, assign, create, launch, store_id, failed, join_results, returned,
  ResultsPc, test, await_start, join, free, signal, collected, write, is_ended, Sys, step_worker,
  now_at,
}
use nnos.Work.Count.{IsSync}
use nnos.Work.Invariant.{Inv, Held, MainOk, ResultsOk, freed, has_announced, has_begun}

module _ (y : Sync) (law : IsSync y) (n m : ℕ) where
  -- A worker that has not ended holds a thread.
  pub still_held :
      (s : Sys y) (k : ℕ)
      → Inv y law n m s
      → k < s.created
      → is_ended (s.workers k).pc ≡ false
      → freed n m s.results ≤ k
  still_held s k v lt running = elim (dec_lt k (freed n m s.results)) [
    | yes gone ↦ absurd (ground (arith, v.gone k gone, running))
    | no held ↦ omega (arith, held)
  ]

  moved-Held :
      (t : ℕ → Slot) (u : ℕ → Worker) (k j : ℕ) (p : WorkerPc)
      → Held m t u j
      → Held m t (write u k (record (u k) { pc = p })) j
  moved-Held t u k j p h = record {
    in_range = ground (arith, h.in_range);
    taken = ground (arith, h.taken);
    own_id = ground (arith, h.own_id);
    own_w = ground (arith, h.own_w);
  }

  moved-MainOk :
      (t : ℕ → Slot) (u : ℕ → Worker) (made k : ℕ) (p : WorkerPc) (r : ResultsPc) (q : MainPc)
      → MainOk n m t u made r q
      → MainOk n m t (write u k (record (u k) { pc = p })) made r q
  moved-MainOk t u made k p r (await_slot w) ok = ok
  moved-MainOk t u made k p r (scan w i) ok = ok
  moved-MainOk t u made k p r (assign w i) (a, b, c, d, apart) =
      (a, b, c, d, λ j x lt. ground (arith, apart j x lt))
  moved-MainOk t u made k p r (create w i) ((a, b, c, d, apart), e) =
      ((a, b, c, d, λ j x lt. ground (arith, apart j x lt)), e)
  moved-MainOk t u made k p r (launch w i) ((a, b, c, d, apart), e, f) =
      ((a, b, c, d, λ j x lt. ground (arith, apart j x lt)), e, f)
  moved-MainOk t u made k p r (store_id w i j) ok = ok
  moved-MainOk t u made k p r failed ok = ok
  moved-MainOk t u made k p r join_results ok = ok
  moved-MainOk t u made k p r returned ok = ok

  moved-ResultsOk :
      (u : ℕ → Worker) (made k : ℕ) (p : WorkerPc) (r : ResultsPc)
      → is_ended (u k).pc ≡ false
      → (has_announced (u k).pc ≡ true → has_announced p ≡ true)
      → ResultsOk n m u made r
      → ResultsOk n m (write u k (record (u k) { pc = p })) made r
  moved-ResultsOk u made k p (test w) e f ok = ok
  moved-ResultsOk u made k p (await_start w) e f ok = ok
  moved-ResultsOk u made k p (join w) e f (a, b, c) = (a, b, ground (arith, c, f))
  moved-ResultsOk u made k p (free w) e f (a, b, c) = (a, b, ground (arith, c, e))
  moved-ResultsOk u made k p (signal w) e f ok = ok
  moved-ResultsOk u made k p collected e f ok = tt

  -- what one step of worker `k` may do
  record Steps (s : Sys y) (k : ℕ) (q : y.State) (f : ℕ → Work) (p : WorkerPc) : Type 0 where
    slots : law.available q ≡ law.available s.sync
    others : (j : ℕ) → j ≢ k → f j ≡ s.work j
    index : has_begun p ≡ true → (f k).thread_index ≡ (s.workers k).thread_idx
    local : (w : ℕ) → p ≡ announce w → w ≡ k
    done_work : is_ended p ≡ true → (f k).state ≡ completed
    posts :
        (j : ℕ)
        → 1 ≤ law.running j q
        → ((j ≡ k) × (has_announced p ≡ true)) ⊎ (1 ≤ law.running j s.sync)
    keeps : has_announced (s.workers k).pc ≡ true → has_announced p ≡ true

  moved-Inv :
      (s : Sys y) (k : ℕ) (q : y.State) (f : ℕ → Work) (p : WorkerPc)
      → Inv y law n m s
      → k < s.created
      → is_ended (s.workers k).pc ≡ false
      → Steps s k q f p
      → Inv y law n m (now_at y n m (record s { sync = q; work = f }) k p)
  moved-Inv s k q f p v lt running e = record {
    slots = omega (arith, v.slots, e.slots);
    main_ok = moved-MainOk s.threads s.workers s.created k p s.results s.main v.main_ok;
    results_ok = moved-ResultsOk s.workers s.created k p s.results running e.keeps v.results_ok;
    held = λ j a b. moved-Held s.threads s.workers k j p (v.held j a b);
    gone = λ j a. (let (b, c) = v.gone j a in (b, ground (arith, c, running)));
    index = λ j a b. elim (ℕ_discrete j k) [
      | yes here ↦ ground (arith, here, b, e.index)
      | no there ↦ ground (arith, there, b, e.others j there, v.index j a)
    ];
    local = λ j w a b. elim (ℕ_discrete j k) [
      | yes here ↦ e.local w (ground (arith, here, b)) ∙ sym here
      | no there ↦ v.local j w a (ground (arith, there, b))
    ];
    announced = λ j a. elim (e.posts j a) [
      | inl (here, posted) ↦ ground (arith, here, posted, lt)
      | inr before ↦ (let (b, c) = v.announced j before in (b, ground (arith, c, e.keeps)))
    ];
    done_work = λ j a b. elim (ℕ_discrete j k) [
      | yes here ↦ ground (arith, here, b, e.done_work)
      | no there ↦ ground (arith, there, b, e.others j there, v.done_work j a)
    ];
  }

  -- the computation that a running worker reads from its thread is its own
  own_work :
      (s : Sys y) (k : ℕ)
      → Inv y law n m s
      → k < s.created
      → is_ended (s.workers k).pc ≡ false
      → (s.threads (s.workers k).thread_idx).w ≡ k
  own_work s k v lt running = (v.held k (still_held s k v lt running) lt).own_w

  pub worker-Inv :
      (k : ℕ) (p : WorkerPc) (s : Sys y)
      → (s.workers k).pc ≡ p
      → k < s.created
      → Inv y law n m s
      → Inv y law n m (step_worker y n m k p s)
  unfolding step_worker
  worker-Inv k begin s e lt v =
      let running : is_ended (s.workers k).pc ≡ false = ap is_ended e in
      let own = own_work s k v lt running in
      let w = (s.threads (s.workers k).thread_idx).w in
      let x = record (s.work w) { thread_index = (s.workers k).thread_idx } in
      moved-Inv s k s.sync (write s.work w x) (announce w) v lt running (record {
        slots = refl;
        others = λ j ne. ground (arith, own, ne);
        index = λ h. ground (arith, own);
        local = λ x h. ground (arith, own, h);
        done_work = λ h. absurd (ground (arith, h));
        posts = λ j h. inr h;
        keeps = λ h. absurd (ground (arith, e, h));
      })
  worker-Inv k (announce w) s e lt v =
      let own = v.local k w lt e in
      let (more, others, same) = law.post_running_lem w s.sync in
      moved-Inv s k (y.post_running w s.sync) s.work set_busy v lt (ap is_ended e) (record {
        slots = same;
        others = λ j ne. refl;
        index = λ h. v.index k lt (ap has_begun e);
        local = λ x h. absurd (ground (arith, h));
        done_work = λ h. absurd (ground (arith, h));
        posts = λ j h. elim (ℕ_discrete j k) [
          | yes here ↦ inl (here, refl)
          | no there ↦ inr (omega (arith, h, others j (λ q. there (q ∙ own))))
        ];
        keeps = λ h. refl;
      })
  worker-Inv k set_busy s e lt v =
      let running : is_ended (s.workers k).pc ≡ false = ap is_ended e in
      let own = own_work s k v lt running in
      let w = (s.threads (s.workers k).thread_idx).w in
      let x = record (s.work w) { state = busy } in
      moved-Inv s k s.sync (write s.work w x) set_done v lt running (record {
        slots = refl;
        others = λ j ne. ground (arith, own, ne);
        index = λ h. ground (arith, own, v.index k lt (ap has_begun e));
        local = λ x h. absurd (ground (arith, h));
        done_work = λ h. absurd (ground (arith, h));
        posts = λ j h. inr h;
        keeps = λ h. refl;
      })
  worker-Inv k set_done s e lt v =
      let running : is_ended (s.workers k).pc ≡ false = ap is_ended e in
      let own = own_work s k v lt running in
      let w = (s.threads (s.workers k).thread_idx).w in
      let x = record (s.work w) { state = completed } in
      moved-Inv s k s.sync (write s.work w x) ended v lt running (record {
        slots = refl;
        others = λ j ne. ground (arith, own, ne);
        index = λ h. ground (arith, own, v.index k lt (ap has_begun e));
        local = λ x h. absurd (ground (arith, h));
        done_work = λ h. ground (arith, own);
        posts = λ j h. inr h;
        keeps = λ h. refl;
      })
  worker-Inv k ended s e lt v = v
