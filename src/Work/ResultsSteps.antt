-- ===== src/Work/ResultsSteps.antt =====
-- The steps of the results thread keep the invariant of the working threads.
use nnos.Prelude.{
  ℕ, ◌+◌, ◌≤◌, ◌≡◌, ◌≢◌, inl, inr, refl, true, false, some, ltb, arith, ℕ_discrete, Bool-cases,
  Option-cases, ltb→lt, ap, ◌∙◌,
}
use nnos.Work.{
  Sync, Slot, Worker, WorkerPc, MainPc, await_slot, scan, assign, create, launch, store_id, failed,
  join_results, returned, ResultsPc, test, await_start, join, free, signal, collected, write,
  is_ended, has_collected, Sys, step_results,
}
use nnos.Work.Count.{IsSync, count-write}
use nnos.Work.Invariant.{
  Inv, Reserved, MainOk, ResultsOk, freed, returning, has_announced, has_begun,
}

module _ (y : Sync) (law : IsSync y) (n m : ℕ) where
  abbrev at : ResultsPc → Sys y → Sys y
  at r s = record s { results = r }

  later-Reserved :
      (t : ℕ → Slot) (u : ℕ → Worker) (made : ℕ) (r r' : ResultsPc) (w i : ℕ)
      → freed n m r ≤ freed n m r'
      → Reserved n m t u made r w i
      → Reserved n m t u made r' w i
  later-Reserved t u made r r' w i le (a, b, c, d, apart) =
      (a, b, c, d, λ k x lt. apart k (omega (arith, le, x)) lt)

  later-MainOk :
      (t : ℕ → Slot) (u : ℕ → Worker) (made : ℕ) (r r' : ResultsPc) (p : MainPc)
      → freed n m r ≤ freed n m r'
      → has_collected r ≡ false
      → MainOk n m t u made r p
      → MainOk n m t u made r' p
  later-MainOk t u made r r' (await_slot w) le not_yet ok = ok
  later-MainOk t u made r r' (scan w i) le not_yet ok = ok
  later-MainOk t u made r r' (assign w i) le not_yet ok = later-Reserved t u made r r' w i le ok
  later-MainOk t u made r r' (create w i) le not_yet (ok, e) =
      (later-Reserved t u made r r' w i le ok, e)
  later-MainOk t u made r r' (launch w i) le not_yet (ok, e, f) =
      (later-Reserved t u made r r' w i le ok, e, f)
  later-MainOk t u made r r' (store_id w i k) le not_yet ok = ok
  later-MainOk t u made r r' failed le not_yet ok = ok
  later-MainOk t u made r r' join_results le not_yet ok = ok
  later-MainOk t u made r r' returned le not_yet (a, b) = absurd (cc)

  -- The results thread goes on, and nothing else changes.
  onward-Inv :
      (s : Sys y) (r r' : ResultsPc)
      → Inv y law n m (at r s)
      → freed n m r ≡ freed n m r'
      → has_collected r ≡ false
      → returning r ≡ returning r'
      → ResultsOk n m s.workers s.created r'
      → Inv y law n m (at r' s)
  onward-Inv s r r' v same not_yet slot ok = record {
    slots = omega (arith, v.slots, slot);
    main_ok =
        later-MainOk s.threads s.workers s.created r r' s.main (omega (arith, same)) not_yet
          v.main_ok;
    results_ok = ok;
    held = λ k a b. v.held k (omega (arith, a, same)) b;
    gone = λ k a. v.gone k (omega (arith, a, same));
    index = v.index;
    local = v.local;
    announced = v.announced;
    done_work = v.done_work;
  }

  started-Inv :
      (s : Sys y) (w : ℕ) (q : y.State)
      → Inv y law n m (at (await_start w) s)
      → y.wait_running w s.sync ≡ some q
      → Inv y law n m (record s { sync = q; results = join w })
  started-Inv s w q v e =
      let (less, others, same) = law.wait_running_lem w s.sync q e in
      let (made, posted) = v.announced w (omega (arith, less)) in
      record {
        slots = omega (arith, v.slots, same);
        main_ok =
            later-MainOk s.threads s.workers s.created (await_start w) (join w) s.main (omega arith)
              refl v.main_ok;
        results_ok = (v.results_ok, made, posted);
        held = v.held;
        gone = v.gone;
        index = v.index;
        local = v.local;
        announced = λ k a. elim (ℕ_discrete k w) [
          | yes here ↦ ground (arith, here, made, posted)
          | no there ↦ v.announced k (omega (arith, a, others k there))
        ];
        done_work = v.done_work;
      }

  announced_begun : (p : WorkerPc) → has_announced p ≡ true → has_begun p ≡ true
  announced_begun p h = ground arith

  pub ended_begun : (p : WorkerPc) → is_ended p ≡ true → has_begun p ≡ true
  ended_begun p h = ground arith

  free-MainOk :
      (s : Sys y) (w : ℕ)
      → Inv y law n m (at (free w) s)
      → let i = (s.workers w).thread_idx in
        MainOk n m
          (write s.threads i (record (s.threads i) { available = true }))
          s.workers
          s.created
          (signal w)
          s.main
  free-MainOk s w v = go s.main v.main_ok
    where
      i : ℕ
      i = (s.workers w).thread_idx

      still :
          (x j : ℕ)
          → Reserved n m s.threads s.workers s.created (free w) x j
          → Reserved n m
              (write s.threads i (record (s.threads i) { available = true }))
              s.workers
              s.created
              (signal w)
              x
              j
      still x j (a, b, c, d, apart) =
          let other = apart w (omega arith) v.results_ok.1 in
          (a, b, c, ground (arith, d, other), λ k x lt. apart k (omega (arith, x)) lt)

      go :
          (p : MainPc)
          → MainOk n m s.threads s.workers s.created (free w) p
          → MainOk n m
              (write s.threads i (record (s.threads i) { available = true }))
              s.workers
              s.created
              (signal w)
              p
      go (await_slot x) ok = ok
      go (scan x j) (a, b, (k, le, lt, opened)) = (a, b, (k, le, lt, ground (arith, opened)))
      go (assign x j) ok = still x j ok
      go (create x j) (ok, e) = (still x j ok, ground (arith, e))
      go (launch x j) (ok, e, f) = (still x j ok, ground (arith, e), ground (arith, f))
      go (store_id x j k) ok = ok
      go failed ok = ok
      go join_results ok = ok
      go returned (a, b) = absurd (cc)

  free-Inv :
      (s : Sys y) (w : ℕ)
      → Inv y law n m (at (free w) s)
      → Inv y law n m (step_results y n m (free w) (at (free w) s))
  unfolding step_results
  free-Inv s w v =
      let (lt, made, over) = v.results_ok in
      let h = v.held w (omega arith) made in
      let same = v.index w made (ended_begun (s.workers w).pc over) in
      rw same (record {
        slots = ground (
          arith,
          v.slots,
          h.taken,
          count-write s.threads (s.workers w).thread_idx
              (record (s.threads (s.workers w).thread_idx) { available = true }) m h.in_range,
        );
        main_ok = free-MainOk s w v;
        results_ok = lt;
        held = λ k a b.
            (let g = v.held k (omega (arith, a)) b in
              let other : (s.workers k).thread_idx ≢ (s.workers w).thread_idx =
                λ e. absurd (ground (arith, ap (λ x. (s.threads x).id) e, g.own_id, h.own_id, a)) in
              record {
                in_range = g.in_range;
                taken = ground (arith, other, g.taken);
                own_id = ground (arith, other, g.own_id);
                own_w = ground (arith, other, g.own_w);
              });
        gone = λ k a. elim (ℕ_discrete k w) [
          | yes here ↦ ground (arith, here, made, over)
          | no there ↦ v.gone k (omega (arith, a, there))
        ];
        index = v.index;
        local = v.local;
        announced = v.announced;
        done_work = v.done_work;
      })

  signal-Inv :
      (s : Sys y) (w : ℕ)
      → Inv y law n m (at (signal w) s)
      → Inv y law n m (step_results y n m (signal w) (at (signal w) s))
  unfolding step_results
  signal-Inv s w v =
      let (more, same) = law.post_available_lem s.sync in
      record {
        slots = omega (arith, v.slots, more);
        main_ok =
            later-MainOk s.threads s.workers s.created (signal w) (test (w + 1)) s.main
              (omega arith) refl v.main_ok;
        results_ok = omega (arith, v.results_ok);
        held = λ k a b. v.held k (omega (arith, a)) b;
        gone = λ k a. v.gone k (omega (arith, a));
        index = v.index;
        local = v.local;
        announced = λ k a. v.announced k (omega (arith, a, same k));
        done_work = v.done_work;
      }

  -- The thread that is joined for computation `w` is the one that was created for it.
  pub joined_own :
      (s : Sys y) (w : ℕ)
      → Inv y law n m (at (join w) s)
      → (s.threads (s.work w).thread_index).id ≡ w
  joined_own s w v =
      let (lt, made, posted) = v.results_ok in
      let h = v.held w (omega arith) made in
      ap (λ i. (s.threads i).id) (v.index w made (announced_begun (s.workers w).pc posted))
      ∙ h.own_id

  pub results-Inv :
      (r : ResultsPc) (s : Sys y)
      → Inv y law n m (at r s)
      → Inv y law n m (step_results y n m r (at r s))
  unfolding step_results
  results-Inv (test w) s v = elim (Bool-cases (ltb w n)) [
    | inl more ↦
        rw (step_results, more)
          (onward-Inv s (test w) (await_start w) v refl refl refl (ltb→lt w n more))
    | inr last ↦
        rw (step_results, last)
          (onward-Inv s (test w) collected v (ground (arith, last, v.results_ok)) refl refl tt)
  ]
  results-Inv (await_start w) s v = elim (Option-cases (y.wait_running w s.sync)) [
    | inl stays ↦ rw (step_results, stays) v
    | inr (q, e) ↦ rw (step_results, e) (started-Inv s w q v e)
  ]
  results-Inv (join w) s v =
      let same = joined_own s w v in
      elim (Bool-cases (is_ended (s.workers (s.threads (s.work w).thread_index).id).pc)) [
        | inl over ↦
            rw (step_results, over)
              (onward-Inv s (join w) (free w) v refl refl refl
                (v.results_ok.0, v.results_ok.1, rw same at over))
        | inr not_yet ↦ rw (step_results, not_yet) v
      ]
  results-Inv (free w) s v = free-Inv s w v
  results-Inv (signal w) s v = signal-Inv s w v
  results-Inv collected s v = v
