-- ===== src/Counter/Steps.antt =====
-- The steps of the counting threads, and whole schedules.
use nnos.Prelude.{
  ℕ, suc, ap, ◌+◌, ◌≡◌, ◌≢◌, ◌⊎◌, ◌≤◌, ◌<◌, some, List, [], ◌∷◌, ltb, ◌==◌, get_elem?, set, refl,
  dec_lt, arith, inl, inr, Option-cases, Bool-cases, ltb→lt,
}
use nnos.Prelude.Sums.{total, total-set, le-total, add-le-total, set-cases}
use nnos.Counter.{
  tcount, count_threshold, IncPc, idle, entered, loaded, counted, leaving, WatchPc, waiting, adding,
  Sys, Turn, inc, watcher, spurious, signal, step_inc, step, run,
}
use nnos.Counter.Invariant.{
  Inv, InLoop, HasRead, holds, watch_holds, rounds_done, added, compares, busy_one, free_none,
  unless, step_watch-Inv,
}

abbrev enters : IncPc → ℕ
enters (entered i) = 1
enters (loaded i v) = 1
enters _ = 0

apart : (xs : List IncPc) → total compares xs + total enters xs ≤ total holds xs
unfolding total
apart [] = omega arith
apart (idle i ∷ xs) = omega (arith, apart xs)
apart (entered i ∷ xs) = omega (arith, apart xs)
apart (loaded i v ∷ xs) = omega (arith, apart xs)
apart (counted i ∷ xs) = omega (arith, apart xs)
apart (leaving i ∷ xs) = omega (arith, apart xs)

bounded_set :
    (xs : List IncPc) (k : ℕ) (old pc : IncPc)
    → get_elem? xs k ≡ some old
    → (rounds_done pc ≤ tcount) × InLoop pc
    → ((j : ℕ) (b : IncPc) → get_elem? xs j ≡ some b → (rounds_done b ≤ tcount) × InLoop b)
    → (j : ℕ) (b : IncPc) → get_elem? (set xs k pc) j ≡ some b
    → (rounds_done b ≤ tcount) × InLoop b
bounded_set xs k old pc e new all j b f = elim (set-cases xs k j old pc b e f) [
  | inl same ↦ rw same new
  | inr (ne, before) ↦ all j b before
]

-- a step of a thread that is not at its comparison, and does not get there, leaves the rest as it is
waits_on :
    (k : ℕ) (old pc : IncPc) (s : Sys)
    → get_elem? s.incs k ≡ some old
    → compares pc ≡ compares old
    → (s.count < count_threshold) ⊎ ((s.count ≡ count_threshold) × (1 ≤ total compares s.incs))
    → (s.count < count_threshold)
      ⊎ ((s.count ≡ count_threshold) × (1 ≤ total compares (set s.incs k pc)))
waits_on k old pc s e same (inl low) = inl low
waits_on k old pc s e same (inr (at, some_one)) =
    inr (at, omega (arith, some_one, same, total-set compares s.incs k old pc e))

reads_set :
    (xs : List IncPc) (k c : ℕ) (old pc : IncPc)
    → get_elem? xs k ≡ some old
    → ((i v : ℕ) → loaded i v ≡ pc → v ≡ c)
    → HasRead c xs
    → HasRead c (set xs k pc)
reads_set xs k c old pc e new all j i v f = elim (set-cases xs k j old pc (loaded i v) e f) [
  | inl same ↦ new i v same
  | inr (ne, before) ↦ all j i v before
]

-- No other thread has read the count while one writes it.
alone_reads :
    (k i u c : ℕ) (s : Sys)
    → get_elem? s.incs k ≡ some (loaded i u)
    → Inv s
    → HasRead c (set s.incs k (counted i))
alone_reads k i u c s e v j i' u' f =
    absurd (elim (set-cases s.incs k j (loaded i u) (counted i) (loaded i' u') e f) [
      | inl same ↦ cc
      | inr (ne, before) ↦ omega (
        arith,
        add-le-total holds s.incs k j (loaded i u) (loaded i' u') e before ne,
        busy_one s v,
      )
    ])

-- While a thread counts no other one is at its comparison, and it goes to its own.
counts_on :
    (k i v : ℕ) (s : Sys)
    → get_elem? s.incs k ≡ some (loaded i v)
    → Inv s
    → (s.count < count_threshold) ⊎ ((s.count ≡ count_threshold) × (1 ≤ total compares s.incs))
    → (suc s.count < count_threshold)
      ⊎ ((suc s.count ≡ count_threshold) × (1 ≤ total compares (set s.incs k (counted i))))
counts_on k i u s e v (inl low) = elim (dec_lt (suc s.count) count_threshold) [
  | yes lower ↦ inl lower
  | no at ↦ inr (
    omega (arith, low, at),
    omega (arith, total-set compares s.incs k (loaded i u) (counted i) e),
  )
]
counts_on k i u s e v (inr (at, some_one)) =
    absurd
      (omega (arith, some_one, apart s.incs, le-total enters s.incs k (loaded i u) e, busy_one s v))

signal-holds : (w : WatchPc) → watch_holds (signal w) ≡ watch_holds w
signal-holds w = ground arith

signal-added : (w : WatchPc) → added (signal w) ≡ added w
signal-added w = ground arith

signal-reads : (w : WatchPc) (v : ℕ) → signal w ≡ adding v → w ≡ adding v
signal-reads w v e = ground (arith, e)

signal_wakes : (w : WatchPc) → signal w ≢ waiting
signal_wakes w e = ground (arith, e)

step_inc-Inv :
    (k : ℕ) (pc : IncPc) (s : Sys) → get_elem? s.incs k ≡ some pc → Inv s → Inv (step_inc k pc s)
unfolding step_inc
step_inc-Inv k (idle i) s e v = elim (Bool-cases (ltb i tcount)) [
  | inr last ↦ rw last v
  | inl more ↦ rw more (
      unless s.locked s _ v (λ free. record {
        owner = omega (arith, total-set holds s.incs k (idle i) (entered i) e, free_none s free v);
        sum = omega (arith, v.sum, total-set rounds_done s.incs k (idle i) (entered i) e);
        waits = λ w. waits_on k (idle i) (entered i) s e refl (v.waits w);
        reads = reads_set s.incs k s.count (idle i) (entered i) e (λ j u q. cc) v.reads;
        watch_reads = v.watch_reads;
        bounded =
            bounded_set s.incs k (idle i) (entered i) e
              (omega (arith, ltb→lt i tcount more), ltb→lt i tcount more) v.bounded;
      }))
]
step_inc-Inv k (entered i) s e v = record {
  owner = omega (arith, v.owner, total-set holds s.incs k (entered i) (loaded i s.count) e);
  sum = omega (arith, v.sum, total-set rounds_done s.incs k (entered i) (loaded i s.count) e);
  waits = λ w. waits_on k (entered i) (loaded i s.count) s e refl (v.waits w);
  reads = reads_set s.incs k s.count (entered i) (loaded i s.count) e (λ j u q. cc) v.reads;
  watch_reads = v.watch_reads;
  bounded =
      bounded_set s.incs k (entered i) (loaded i s.count) e (v.bounded k (entered i) e) v.bounded;
}
step_inc-Inv k (loaded i u) s e v = record {
  owner = omega (arith, v.owner, total-set holds s.incs k (loaded i u) (counted i) e);
  sum =
      omega
        (arith, v.sum, v.reads k i u e, total-set rounds_done s.incs k (loaded i u) (counted i) e);
  waits = λ w. rw (v.reads k i u e) (counts_on k i u s e v (v.waits w));
  reads = alone_reads k i u (suc u) s e v;
  watch_reads = λ x q.
      absurd
        (omega (arith, ap watch_holds q, le-total holds s.incs k (loaded i u) e, busy_one s v));
  bounded =
      bounded_set s.incs k (loaded i u) (counted i) e
        (omega (arith, (v.bounded k (loaded i u) e).1), tt) v.bounded;
}
step_inc-Inv k (counted i) s e v = elim (Bool-cases (s.count == count_threshold)) [
  | inl at ↦ rw at (record {
    owner =
        omega (
          arith,
          v.owner,
          signal-holds s.watch,
          total-set holds s.incs k (counted i) (leaving i) e,
        );
    sum = omega (
      arith,
      v.sum,
      signal-added s.watch,
      total-set rounds_done s.incs k (counted i) (leaving i) e,
    );
    waits = λ w. absurd (signal_wakes s.watch w);
    reads = reads_set s.incs k s.count (counted i) (leaving i) e (λ j u q. cc) v.reads;
    watch_reads = λ x q. v.watch_reads x (signal-reads s.watch x q);
    bounded =
        bounded_set s.incs k (counted i) (leaving i) e ((v.bounded k (counted i) e).0, tt)
          v.bounded;
  })
  | inr off ↦ rw off (record {
    owner = omega (arith, v.owner, total-set holds s.incs k (counted i) (leaving i) e);
    sum = omega (arith, v.sum, total-set rounds_done s.incs k (counted i) (leaving i) e);
    waits = λ w. elim (v.waits w) [ inl low ↦ inl low | inr h ↦ absurd (ground (arith, off, h.0)) ];
    reads = reads_set s.incs k s.count (counted i) (leaving i) e (λ j u q. cc) v.reads;
    watch_reads = v.watch_reads;
    bounded =
        bounded_set s.incs k (counted i) (leaving i) e ((v.bounded k (counted i) e).0, tt)
          v.bounded;
  })
]
step_inc-Inv k (leaving i) s e v = record {
  owner = omega (arith, busy_one s v, total-set holds s.incs k (leaving i) (idle (suc i)) e);
  sum = omega (arith, v.sum, total-set rounds_done s.incs k (leaving i) (idle (suc i)) e);
  waits = λ w. waits_on k (leaving i) (idle (suc i)) s e refl (v.waits w);
  reads = reads_set s.incs k s.count (leaving i) (idle (suc i)) e (λ j u q. cc) v.reads;
  watch_reads = v.watch_reads;
  bounded =
      bounded_set s.incs k (leaving i) (idle (suc i)) e ((v.bounded k (leaving i) e).0, tt)
        v.bounded;
}

pub step-Inv : (t : Turn) (s : Sys) → Inv s → Inv (step t s)
unfolding step
step-Inv (inc k) s v = elim (Option-cases (get_elem? s.incs k)) [
  | inl no_one ↦ rw no_one v
  | inr (pc, e) ↦ rw e (step_inc-Inv k pc s e v)
]
step-Inv watcher s v = step_watch-Inv s.watch s refl v
step-Inv spurious s v = record {
  owner = omega (arith, v.owner, signal-holds s.watch);
  sum = omega (arith, v.sum, signal-added s.watch);
  waits = λ w. absurd (signal_wakes s.watch w);
  reads = v.reads;
  watch_reads = λ x q. v.watch_reads x (signal-reads s.watch x q);
  bounded = v.bounded;
}

pub run-Inv : (ts : List Turn) (s : Sys) → Inv s → Inv (run ts s)
unfolding run
run-Inv [] s v = v
run-Inv (t ∷ ts) s v = run-Inv ts (step t s) (step-Inv t s v)
