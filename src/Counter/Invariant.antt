-- ===== src/Counter/Invariant.antt =====
-- Who holds the mutex, what the count is made of, and when the watcher may wait.
use nnos.Prelude.{
  ℕ, suc, ◌+◌, ◌≡◌, ◌⊎◌, ◌≤◌, ◌<◌, Bool, true, false, some, List, if◌then◌else◌, ltb, get_elem?,
  refl, ap, ◌∙◌, arith, inl, inr, Bool-cases, ltb→lt, get_elem?-replicate,
}
use nnos.Prelude.Sums.{total, total-replicate, le-total}
use nnos.Counter.{
  tcount, count_threshold, IncPc, idle, entered, loaded, counted, leaving, WatchPc, starting,
  testing, waiting, woken, resumed, adding, unlocking, finished, Sys, begin, step_watch,
}

abbrev pub holds : IncPc → ℕ
holds (idle i) = 0
holds _ = 1

abbrev pub watch_holds : WatchPc → ℕ
watch_holds testing = 1
watch_holds resumed = 1
watch_holds (adding v) = 1
watch_holds unlocking = 1
watch_holds _ = 0

-- how often the thread has counted
abbrev pub rounds_done : IncPc → ℕ
rounds_done (idle i) = i
rounds_done (entered i) = i
rounds_done (loaded i v) = i
rounds_done (counted i) = suc i
rounds_done (leaving i) = suc i

abbrev pub added : WatchPc → ℕ
added unlocking = 100
added finished = 100
added _ = 0

-- the thread is at its comparison with the threshold
abbrev pub compares : IncPc → ℕ
compares (counted i) = 1
compares _ = 0

abbrev pub InLoop : IncPc → Type 0
InLoop (entered i) = i < tcount
InLoop (loaded i v) = i < tcount
InLoop pc = Unit

-- Every thread that has read the count will add to the count as it is.
abbrev pub HasRead : ℕ → List IncPc → Type 0
HasRead c xs = (k i v : ℕ) → get_elem? xs k ≡ some (loaded i v) → v ≡ c

pub record Inv (s : Sys) : Type 0 where
  pub owner : total holds s.incs + watch_holds s.watch ≡ (if s.locked then 1 else 0)
  pub sum : s.count ≡ total rounds_done s.incs + added s.watch
  pub waits :
      s.watch ≡ waiting
      → (s.count < count_threshold) ⊎ ((s.count ≡ count_threshold) × (1 ≤ total compares s.incs))
  pub reads : HasRead s.count s.incs
  pub watch_reads : (v : ℕ) → s.watch ≡ adding v → v ≡ s.count
  pub bounded :
      (k : ℕ) (pc : IncPc) → get_elem? s.incs k ≡ some pc → (rounds_done pc ≤ tcount) × InLoop pc

pub begin-Inv : (n : ℕ) → Inv (begin n)
begin-Inv n = record {
  owner = omega (arith, total-replicate holds n (idle 0));
  sum = omega (arith, total-replicate rounds_done n (idle 0));
  waits = λ e. cc;
  reads = λ k i v e. absurd (let same = get_elem?-replicate n k (idle 0) (loaded i v) e in cc);
  watch_reads = λ v e. cc;
  bounded = λ k pc e. rw (get_elem?-replicate n k (idle 0) pc e) (omega arith, tt);
}

-- only the holder of the mutex is between its calls of lock and unlock
pub busy_one : (s : Sys) → Inv s → total holds s.incs + watch_holds s.watch ≤ 1
busy_one s v = elim (Bool-cases s.locked) [
  | inl busy ↦ ground (arith, v.owner)
  | inr free ↦ ground (arith, v.owner)
]

locked_one : (s : Sys) → Inv s → 1 ≤ total holds s.incs + watch_holds s.watch → s.locked ≡ true
locked_one s v h = ground (arith, v.owner)

pub free_none : (s : Sys) → s.locked ≡ false → Inv s → total holds s.incs + watch_holds s.watch ≡ 0
free_none s free v = v.owner ∙ ap (λ b. if b then 1 else 0) free

pub unless : (b : Bool) (s u : Sys) → Inv s → (b ≡ false → Inv u) → Inv (if b then s else u)
unless true s u i next = i
unless false s u i next = next refl

pub step_watch-Inv : (w : WatchPc) (s : Sys) → s.watch ≡ w → Inv s → Inv (step_watch w s)
unfolding step_watch
step_watch-Inv starting s e i = unless s.locked s _ i (λ free. record {
  owner = omega (arith, ap watch_holds e, free_none s free i);
  sum = omega (arith, i.sum, ap added e);
  waits = λ q. cc;
  reads = i.reads;
  watch_reads = λ v q. cc;
  bounded = i.bounded;
})
step_watch-Inv testing s e i = elim (Bool-cases (ltb s.count count_threshold)) [
  | inl low ↦ rw low (record {
    owner = omega (arith, busy_one s i, ap watch_holds e);
    sum = omega (arith, i.sum, ap added e);
    waits = λ q. inl (ltb→lt s.count count_threshold low);
    reads = i.reads;
    watch_reads = λ v q. cc;
    bounded = i.bounded;
  })
  | inr high ↦ rw high (record {
    owner = omega (arith, i.owner, ap watch_holds e);
    sum = omega (arith, i.sum, ap added e);
    waits = λ q. cc;
    reads = i.reads;
    watch_reads = λ v q. cc;
    bounded = i.bounded;
  })
]
step_watch-Inv waiting s e i = i
step_watch-Inv woken s e i = unless s.locked s _ i (λ free. record {
  owner = omega (arith, ap watch_holds e, free_none s free i);
  sum = omega (arith, i.sum, ap added e);
  waits = λ q. cc;
  reads = i.reads;
  watch_reads = λ v q. cc;
  bounded = i.bounded;
})
step_watch-Inv resumed s e i = record {
  owner = omega (arith, i.owner, ap watch_holds e);
  sum = omega (arith, i.sum, ap added e);
  waits = λ q. cc;
  reads = i.reads;
  watch_reads = λ v q. cc;
  bounded = i.bounded;
}
step_watch-Inv (adding u) s e i = record {
  owner = omega (arith, i.owner, ap watch_holds e);
  sum = omega (arith, i.sum, ap added e, i.watch_reads u e);
  waits = λ q. cc;
  reads = λ k j v q.
      absurd
        (omega (arith, le-total holds s.incs k (loaded j v) q, busy_one s i, ap watch_holds e));
  watch_reads = λ v q. cc;
  bounded = i.bounded;
}
step_watch-Inv unlocking s e i = record {
  owner = omega (arith, busy_one s i, ap watch_holds e);
  sum = omega (arith, i.sum, ap added e);
  waits = λ q. cc;
  reads = i.reads;
  watch_reads = λ v q. cc;
  bounded = i.bounded;
}
step_watch-Inv finished s e i = i
