-- ===== src/Work/MainSteps.antt =====
-- The steps of the main thread keep the invariant of the working threads.
use nnos.Prelude.{
  ℕ, ◌+◌, ◌≤◌, ◌<◌, ◌≡◌, ◌≢◌, inl, inr, refl, true, false, some, if◌then◌else◌, ltb, arith,
  ℕ_discrete, Bool-cases, Option-cases, ltb→lt, ap,
}
use nnos.Work.{
  Sync, Slot, Worker, ResultsPc, test, await_start, join, free, signal, collected, begin, MainPc,
  await_slot, scan, assign, create, launch, store_id, failed, join_results, returned, write,
  has_collected, Sys, step_main,
}
use nnos.Work.Count.{IsSync, count-write, count-same, count-pos}
use nnos.Work.Invariant.{Inv, Reserved, MainOk, ResultsOk, freed, taking}

module _ (y : Sync) (law : IsSync y) (n m : ℕ) where
  abbrev at : MainPc → Sys y → Sys y
  at p s = record s { main = p }

  -- The semaphore lets the main thread on.
  await-Inv :
      (s : Sys y) (w : ℕ) (q : y.State)
      → Inv y law n m (at (await_slot w) s)
      → y.wait_available s.sync ≡ some q
      → Inv y law n m (record s { sync = q; main = scan w 0 })
  await-Inv s w q v h =
      let (less, same) = law.wait_available_lem s.sync q h in
      let (j, lt, opened) = count-pos s.threads m (omega (arith, less, v.slots)) in
      record {
        slots = omega (arith, less, v.slots);
        main_ok = (v.main_ok.0, v.main_ok.1, (j, omega arith, lt, opened));
        results_ok = v.results_ok;
        held = v.held;
        gone = v.gone;
        index = v.index;
        local = v.local;
        announced = λ k a. v.announced k (omega (arith, a, same k));
        done_work = v.done_work;
      }

  take-Inv :
      (s : Sys y) (w i : ℕ)
      → Inv y law n m (at (scan w i) s)
      → i < m
      → (s.threads i).available ≡ true
      → Inv y law n m (record s {
        threads = write s.threads i (record (s.threads i) { available = false });
        main = assign w i;
      })
  take-Inv s w i v lt opened =
      let x = record (s.threads i) { available = false } in
      let other : (k : ℕ) → freed n m s.results ≤ k → k < s.created → (s.workers k).thread_idx ≢ i =
        λ k a b e. absurd (ground (arith, opened, (v.held k a b).taken, e)) in
      record {
        slots = ground (arith, count-write s.threads i x m lt, v.slots, opened);
        main_ok = (v.main_ok.0, v.main_ok.1, lt, ground arith, other);
        results_ok = v.results_ok;
        held = λ k a b.
            (let h = v.held k a b in
              record {
                in_range = h.in_range;
                taken = ground (arith, h.taken, other k a b);
                own_id = ground (arith, h.own_id, other k a b);
                own_w = ground (arith, h.own_w, other k a b);
              });
        gone = v.gone;
        index = v.index;
        local = v.local;
        announced = v.announced;
        done_work = v.done_work;
      }

  pass-Inv :
      (s : Sys y) (w i : ℕ)
      → Inv y law n m (at (scan w i) s)
      → (s.threads i).available ≡ false
      → Inv y law n m (at (scan w (i + 1)) s)
  pass-Inv s w i v taken =
      let (a, b, (j, le, lt, opened)) = v.main_ok in
      let above : i + 1 ≤ j = ground (arith, taken, opened, le, ap s.threads) in
      record {
        slots = v.slots;
        main_ok = (a, b, (j, above, lt, opened));
        results_ok = v.results_ok;
        held = v.held;
        gone = v.gone;
        index = v.index;
        local = v.local;
        announced = v.announced;
        done_work = v.done_work;
      }

  more-ResultsOk :
      (u : ℕ → Worker) (made : ℕ) (x : Worker) (r : ResultsPc)
      → ResultsOk n m u made r
      → ResultsOk n m (write u made x) (made + 1) r
  more-ResultsOk u made x (test w) ok = ok
  more-ResultsOk u made x (await_start w) ok = ok
  more-ResultsOk u made x (join w) (a, b, c) = (a, omega (arith, b), ground (arith, b, c))
  more-ResultsOk u made x (free w) (a, b, c) = (a, omega (arith, b), ground (arith, b, c))
  more-ResultsOk u made x (signal w) ok = ok
  more-ResultsOk u made x collected ok = tt

  next-MainOk :
      (t : ℕ → Slot) (u : ℕ → Worker) (made w : ℕ) (r : ResultsPc)
      → w ≡ made
      → w < n
      → MainOk n m t u (made + 1) r (if ltb (w + 1) n then await_slot (w + 1) else join_results)
        × (taking (if ltb (w + 1) n then await_slot (w + 1) else join_results) ≡ 0)
  next-MainOk t u made w r e lt = elim (Bool-cases (ltb (w + 1) n)) [
    | inl more ↦ rw more ((omega arith, ground (arith, more)), refl)
    | inr last ↦ rw last (ground (arith, last), refl)
  ]

  -- The main thread writes into the thread that it has taken.
  own-Inv :
      (s : Sys y) (w i : ℕ) (x : Slot) (p q : MainPc)
      → Inv y law n m (at p s)
      → Reserved n m s.threads s.workers s.created s.results w i
      → x.available ≡ (s.threads i).available
      → taking p ≡ taking q
      → MainOk n m (write s.threads i x) s.workers s.created s.results q
      → Inv y law n m (record s { threads = write s.threads i x; main = q })
  own-Inv s w i x p q v (a, b, c, d, apart) same none_taken ok = record {
    slots = omega (arith, v.slots, none_taken, count-same s.threads i x m same);
    main_ok = ok;
    results_ok = v.results_ok;
    held = λ k a b.
        (let h = v.held k a b in
          let other = apart k a b in
          record {
            in_range = h.in_range;
            taken = ground (arith, h.taken, other);
            own_id = ground (arith, h.own_id, other);
            own_w = ground (arith, h.own_w, other);
          });
    gone = v.gone;
    index = v.index;
    local = v.local;
    announced = v.announced;
    done_work = v.done_work;
  }

  assign-Inv :
      (s : Sys y) (w i : ℕ)
      → Inv y law n m (at (assign w i) s)
      → Inv y law n m (step_main y n m (assign w i) (at (assign w i) s))
  unfolding step_main
  assign-Inv s w i v =
      let (a, b, c, d, apart) = v.main_ok in
      own-Inv s w i (record (s.threads i) { w = w }) (assign w i) (create w i) v v.main_ok refl refl
        ((a, b, c, ground (arith, d), apart), ground (arith, a))

  store-Inv :
      (s : Sys y) (w i : ℕ)
      → Inv y law n m (at (create w i) s)
      → Inv y law n m (step_main y n m (create w i) (at (create w i) s))
  unfolding step_main
  store-Inv s w i v =
      let ((a, b, c, d, apart), e) = v.main_ok in
      rw (step_main, law.id_first_lem)
        (own-Inv s w i (record (s.threads i) { id = s.created }) (create w i) (launch w i) v
          v.main_ok.0 refl refl
          ((a, b, c, ground (arith, d), apart), ground (arith, e), ground arith))

  launch-Inv :
      (s : Sys y) (w i : ℕ)
      → Inv y law n m (at (launch w i) s)
      → Inv y law n m (step_main y n m (launch w i) (at (launch w i) s))
  unfolding step_main
  launch-Inv s w i v =
      let ((e, lt, inside, taken, apart), own_w, own_id) = v.main_ok in
      let born : Worker = record { thread_idx = i; pc = begin } in
      let t = s.threads in
      let u = write s.workers s.created born in
      let (ok, none_taken) = next-MainOk t u s.created w s.results e lt in
      record {
        slots = omega (arith, v.slots, none_taken);
        main_ok = ok;
        results_ok = more-ResultsOk s.workers s.created born s.results v.results_ok;
        held = λ k a b. elim (ℕ_discrete k s.created) [
          | yes new ↦ record {
            in_range = ground (arith, new, inside);
            taken = ground (arith, new, taken);
            own_id = ground (arith, new, own_id);
            own_w = ground (arith, new, own_w);
          }
          | no old ↦
              (let h = v.held k a (omega (arith, b, old)) in
                let other = apart k a (omega (arith, b, old)) in
                record {
                  in_range = ground (arith, old, h.in_range);
                  taken = ground (arith, old, other, h.taken);
                  own_id = ground (arith, old, other, h.own_id);
                  own_w = ground (arith, old, other, h.own_w);
                })
        ];
        gone = λ k a. (let (b, c) = v.gone k a in (omega (arith, b), ground (arith, b, c)));
        index = λ k a b. elim (ℕ_discrete k s.created) [
          | yes new ↦ absurd (ground (arith, new, b))
          | no old ↦ ground (arith, old, v.index k (omega (arith, a, old)) (ground (arith, old, b)))
        ];
        local = λ k x a b. elim (ℕ_discrete k s.created) [
          | yes new ↦ absurd (ground (arith, new, b))
          | no old ↦ v.local k x (omega (arith, a, old)) (ground (arith, old, b))
        ];
        announced =
            λ k a. (let (b, c) = v.announced k a in (omega (arith, b), ground (arith, b, c)));
        done_work = λ k a b. elim (ℕ_discrete k s.created) [
          | yes new ↦ absurd (ground (arith, new, b))
          | no old ↦ v.done_work k (omega (arith, a, old)) (ground (arith, old, b))
        ];
      }

  pub main-Inv :
      (p : MainPc) (s : Sys y) → Inv y law n m (at p s) → Inv y law n m (step_main y n m p (at p s))
  unfolding step_main
  main-Inv (await_slot w) s v = elim (Option-cases (y.wait_available s.sync)) [
    | inl stays ↦ rw (step_main, stays) v
    | inr (q, e) ↦ rw (step_main, e) (await-Inv s w q v e)
  ]
  main-Inv (scan w i) s v = elim (Bool-cases (ltb i m)) [
    | inl inside ↦ elim (Bool-cases (s.threads i).available) [
      | inl opened ↦ rw (step_main, inside, opened) (take-Inv s w i v (ltb→lt i m inside) opened)
      | inr taken ↦ rw (step_main, inside, taken) (pass-Inv s w i v taken)
    ]
    | inr out ↦ (let (_, _, (j, le, lt, _)) = v.main_ok in absurd (ground (arith, out, le, lt)))
  ]
  main-Inv (assign w i) s v = assign-Inv s w i v
  main-Inv (create w i) s v = store-Inv s w i v
  main-Inv (launch w i) s v = launch-Inv s w i v
  main-Inv (store_id w i k) s v = absurd v.main_ok
  main-Inv failed s v = v
  main-Inv join_results s v = elim (Bool-cases (has_collected s.results)) [
    | inl over ↦
        rw (step_main, over)
          (record {
            slots = v.slots;
            main_ok = (v.main_ok, over);
            results_ok = v.results_ok;
            held = v.held;
            gone = v.gone;
            index = v.index;
            local = v.local;
            announced = v.announced;
            done_work = v.done_work;
          })
    | inr still ↦ rw (step_main, still) v
  ]
  main-Inv returned s v = v
