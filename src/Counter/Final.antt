-- ===== src/Counter/Final.antt =====
-- The count at the end, and that the watcher gets there.
use nnos.Prelude.{
  ℕ, suc, ◌+◌, ◌*◌, ◌≡◌, ◌≢◌, ◌≤◌, Bool, true, false, not, ◌&&◌, some, List, [], ◌∷◌, if◌then◌else◌,
  ltb, get_elem?, length, length-set, length-replicate, refl, ap, ◌∙◌, arith, inl, inr,
  Option-cases,
}
use nnos.Prelude.Sums.{total}
use nnos.Counter.{
  tcount, count_threshold, IncPc, idle, entered, loaded, counted, leaving, WatchPc, starting,
  testing, waiting, woken, resumed, adding, unlocking, finished, Sys, Turn, inc, watcher, spurious,
  begin, step_inc, step_watch, step, run,
}
use nnos.Counter.Invariant.{Inv, begin-Inv, holds, rounds_done, watch_holds, added, compares}
use nnos.Counter.Steps.{run-Inv}

-- all the counting threads have come to the end of their loops
abbrev pub ended : List IncPc → Bool
ended [] = true
ended (idle i ∷ xs) = let rest = ended xs in not (ltb i tcount) && rest
ended (_ ∷ xs) = false

pub step-length : (t : Turn) (s : Sys) → length (step t s).incs ≡ length s.incs
unfolding step step_inc step_watch
step-length (inc k) s = elim (Option-cases (get_elem? s.incs k)) [
  | inl no_one ↦ rw no_one refl
  | inr (pc, e) ↦ rw e (by_pc pc)
]
  where
    by_pc : (pc : IncPc) → length (step_inc k pc s).incs ≡ length s.incs
    by_pc (idle i) = ground (arith, length-set s.incs k (entered i))
    by_pc (entered i) = length-set s.incs k (loaded i s.count)
    by_pc (loaded i v) = length-set s.incs k (counted i)
    by_pc (counted i) = ground (arith, length-set s.incs k (leaving i))
    by_pc (leaving i) = length-set s.incs k (idle (suc i))
step-length watcher s = ground arith
step-length spurious s = refl

pub run-length : (ts : List Turn) (s : Sys) → length (run ts s).incs ≡ length s.incs
unfolding run
run-length [] s = refl
run-length (t ∷ ts) s = run-length ts (step t s) ∙ step-length t s

pub ended-total :
    (xs : List IncPc)
    → ended xs ≡ true
    → ((k : ℕ) (pc : IncPc) → get_elem? xs k ≡ some pc → rounds_done pc ≤ tcount)
    → (total rounds_done xs ≡ length xs * tcount) × (total holds xs ≡ 0) × (total compares xs ≡ 0)
unfolding total
ended-total [] e b = (refl, refl, refl)
ended-total (idle i ∷ xs) e b =
    let (r, h, c) = ended-total xs (ground (arith, e)) (λ k pc q. b (suc k) pc q) in
    let last : i ≡ tcount = ground (arith, e, b 0 (idle i) refl) in
    (omega (arith, last, r), omega (arith, h), omega (arith, c))
ended-total (entered i ∷ xs) e b = absurd (cc)
ended-total (loaded i v ∷ xs) e b = absurd (cc)
ended-total (counted i ∷ xs) e b = absurd (cc)
ended-total (leaving i ∷ xs) e b = absurd (cc)

-- the watcher alone, which does not wait and finds the mutex free or its own
five_turns :
    (w : WatchPc) (c : ℕ) (l : Bool) (xs : List IncPc)
    → watch_holds w ≡ (if l then 1 else 0)
    → ltb c count_threshold ≡ false
    → w ≢ waiting
    → (run
        (watcher ∷ watcher ∷ watcher ∷ watcher ∷ watcher ∷ [])
        (record { count = c; locked = l; watch = w; incs = xs })).watch
      ≡ finished
unfolding run step step_watch
five_turns starting c true xs o h ne = absurd (omega (arith, o))
five_turns starting c false xs o h ne = rw h refl
five_turns testing c l xs o h ne = rw h refl
five_turns waiting c l xs o h ne = absurd (ne refl)
five_turns woken c true xs o h ne = absurd (omega (arith, o))
five_turns woken c false xs o h ne = refl
five_turns resumed c l xs o h ne = refl
five_turns (adding v) c l xs o h ne = refl
five_turns unlocking c l xs o h ne = refl
five_turns finished c l xs o h ne = refl

module _ (counters : ℕ) (ts : List Turn) where
  abbrev pub reached : Sys
  reached = run ts (begin counters)

  reached-Inv : Inv reached
  reached-Inv = run-Inv ts (begin counters) (begin-Inv counters)

  totals :
      ended reached.incs ≡ true
      → (total rounds_done reached.incs ≡ counters * tcount)
        × (total holds reached.incs ≡ 0)
        × (total compares reached.incs ≡ 0)
  totals e =
      let (r, h, c) = ended-total reached.incs e (λ k pc q. (reached-Inv.bounded k pc q).0) in
      (
        r
            ∙ ap (λ n. n * tcount)
                (run-length ts (begin counters) ∙ length-replicate counters (idle 0)),
        h,
        c,
      )

  -- When all threads have finished, the count is the number of all rounds of the counting threads, and
  -- 100 more, whatever the schedule and whatever wakes the watcher.
  pub final_count :
      ended reached.incs ≡ true → reached.watch ≡ finished → reached.count ≡ counters * tcount + 100
  final_count e w = omega (arith, reached-Inv.sum, (totals e).0, ap added w)

  -- When the counting threads have finished, the watcher has not missed their signal: with at most five
  -- more turns it finishes too, if together they count up to the threshold.
  pub watcher_finishes :
      count_threshold ≤ counters * tcount
      → ended reached.incs ≡ true
      → (run (watcher ∷ watcher ∷ watcher ∷ watcher ∷ watcher ∷ []) reached).watch ≡ finished
  watcher_finishes enough e =
      let (r, h, c) = totals e in
      five_turns reached.watch reached.count reached.locked reached.incs
        (omega (arith, reached-Inv.owner, h)) (ground (arith, reached-Inv.sum, r, enough))
        (λ w. elim (reached-Inv.waits w) [
          | inl low ↦ absurd (omega (arith, low, reached-Inv.sum, r, enough))
          | inr (at, some_one) ↦ absurd (omega (arith, some_one, c))
        ])
