-- ===== src/Counter/Progress.antt =====
-- No deadlock: every schedule can be continued to the end of all threads.
use nnos.Prelude.{
  ℕ, zero, suc, ◌+◌, ◌-◌, ◌*◌, ◌≡◌, ◌≢◌, ◌≤◌, ◌<◌, Bool, true, false, some, List, [], ◌∷◌,
  if◌then◌else◌, ltb, lt→ltb, ◌==◌, get_elem?, length, length-replicate, refl, ap, ◌∙◌, arith, inl,
  inr, Bool-cases, dec_lt,
}
use nnos.Prelude.Sums.{total, total-set, total-pos}
use nnos.Counter.{
  tcount, count_threshold, IncPc, idle, entered, loaded, counted, leaving, WatchPc, starting,
  testing, waiting, woken, resumed, adding, unlocking, finished, Sys, Turn, inc, watcher, spurious,
  begin, signal, step_inc, step_watch, step, run,
}
use nnos.Counter.Invariant.{Inv, InLoop, begin-Inv, holds, rounds_done, watch_holds, added}
use nnos.Counter.Steps.{run-Inv, step-Inv}
use nnos.Counter.Final.{ended, ended-total, step-length, run-length}

-- the turns that a thread still needs
abbrev inc_left : IncPc → ℕ
inc_left (idle i) = 5 * (tcount - i)
inc_left (entered i) = 5 * (tcount - i) - 1
inc_left (loaded i v) = 5 * (tcount - i) - 2
inc_left (counted i) = 5 * (tcount - i) - 3
inc_left (leaving i) = 5 * (tcount - i) - 4

abbrev watch_left : WatchPc → ℕ
watch_left starting = 7
watch_left testing = 6
watch_left waiting = 5
watch_left woken = 4
watch_left resumed = 3
watch_left (adding v) = 2
watch_left unlocking = 1
watch_left finished = 0

abbrev left : Sys → ℕ
left s = total inc_left s.incs + watch_left s.watch

signal-left : (w : WatchPc) → watch_left (signal w) ≤ watch_left w
signal-left w = ground arith

-- a thread that counts moves, if it holds the mutex or finds it free
inc_moves :
    (k : ℕ) (pc : IncPc) (s : Sys)
    → get_elem? s.incs k ≡ some pc
    → (holds pc ≡ 0 → s.locked ≡ false)
    → (rounds_done pc ≤ tcount) × InLoop pc
    → 1 ≤ inc_left pc
    → left (step (inc k) s) < left s
unfolding step step_inc
inc_moves k (idle i) s e free b some_left =
    let more : i < tcount = omega (arith, some_left) in
    rw (e, lt→ltb i tcount more, free refl)
      (omega (arith, more, total-set inc_left s.incs k (idle i) (entered i) e))
inc_moves k (entered i) s e free b some_left =
    rw e (omega (arith, b.1, total-set inc_left s.incs k (entered i) (loaded i s.count) e))
inc_moves k (loaded i v) s e free b some_left =
    rw e (omega (arith, b.1, total-set inc_left s.incs k (loaded i v) (counted i) e))
inc_moves k (counted i) s e free b some_left = elim (Bool-cases (s.count == count_threshold)) [
  | inl at ↦
      rw (e, at)
        (omega
          (arith, b.0, signal-left s.watch, total-set inc_left s.incs k (counted i) (leaving i) e))
  | inr off ↦
      rw (e, off) (omega (arith, b.0, total-set inc_left s.incs k (counted i) (leaving i) e))
]
inc_moves k (leaving i) s e free b some_left =
    rw e (omega (arith, b.0, total-set inc_left s.incs k (leaving i) (idle (suc i)) e))

-- a schedule in which nothing wakes the watcher but the signal
abbrev pub asked : List Turn → Bool
asked [] = true
asked (spurious ∷ ts) = false
asked (inc k ∷ ts) = asked ts
asked (watcher ∷ ts) = asked ts

-- the watcher moves, if it does not wait
watch_moves :
    (w : WatchPc) (s : Sys)
    → s.watch ≡ w
    → (watch_holds w ≡ 0 → s.locked ≡ false)
    → w ≢ waiting
    → 1 ≤ watch_left w
    → left (step watcher s) < left s
unfolding step step_watch
watch_moves starting s e free ne some_left = rw (e, free refl) (omega (arith, ap watch_left e))
watch_moves testing s e free ne some_left = elim (Bool-cases (ltb s.count count_threshold)) [
  | inl low ↦ rw (e, low) (omega (arith, ap watch_left e))
  | inr high ↦ rw (e, high) (omega (arith, ap watch_left e))
]
watch_moves waiting s e free ne some_left = absurd (ne refl)
watch_moves woken s e free ne some_left = rw (e, free refl) (omega (arith, ap watch_left e))
watch_moves resumed s e free ne some_left = rw e (omega (arith, ap watch_left e))
watch_moves (adding v) s e free ne some_left = rw e (omega (arith, ap watch_left e))
watch_moves unlocking s e free ne some_left = rw e (omega (arith, ap watch_left e))
watch_moves finished s e free ne some_left = absurd (omega (arith, some_left))

abbrev IsBounded : List IncPc → Type 0
IsBounded xs =
    (k : ℕ) (pc : IncPc) → get_elem? xs k ≡ some pc → (rounds_done pc ≤ tcount) × InLoop pc

all_out : (xs : List IncPc) → IsBounded xs → total inc_left xs ≡ 0 → ended xs ≡ true
unfolding total
all_out [] b h = refl
all_out (idle i ∷ xs) b h =
    let rest = all_out xs (λ k pc e. b (suc k) pc e) (omega (arith, h)) in
    let done : tcount ≤ i = omega (arith, h) in ground (arith, rest, done)
all_out (entered i ∷ xs) b h = absurd (omega (arith, h, (b 0 (entered i) refl).1))
all_out (loaded i v ∷ xs) b h = absurd (omega (arith, h, (b 0 (loaded i v) refl).1))
all_out (counted i ∷ xs) b h = absurd (omega (arith, h, (b 0 (counted i) refl).0))
all_out (leaving i ∷ xs) b h = absurd (omega (arith, h, (b 0 (leaving i) refl).0))

holder_left : (pc : IncPc) → 1 ≤ holds pc → (rounds_done pc ≤ tcount) × InLoop pc → 1 ≤ inc_left pc
holder_left (idle i) h b = absurd (omega (arith, h))
holder_left (entered i) h b = omega (arith, b.1)
holder_left (loaded i v) h b = omega (arith, b.1)
holder_left (counted i) h b = omega (arith, b.0)
holder_left (leaving i) h b = omega (arith, b.0)

watch_holder : (w : WatchPc) → 1 ≤ watch_holds w → (w ≢ waiting) × (1 ≤ watch_left w)
watch_holder w h = (λ e. ground (arith, h, e), ground (arith, h))

module _ (counters : ℕ) (enough : count_threshold ≤ counters * tcount) where
  not_waiting :
      (s : Sys) → Inv s → length s.incs ≡ counters → total inc_left s.incs ≡ 0 → s.watch ≢ waiting
  not_waiting s v n out w =
      let (r, h, c) =
        ended-total s.incs (all_out s.incs v.bounded out) (λ k pc q. (v.bounded k pc q).0) in
      let sum : s.count ≡ counters * tcount + added s.watch =
        v.sum ∙ ap (λ m. m + added s.watch) (r ∙ ap (λ m. m * tcount) n) in
      elim (v.waits w) [
        | inl low ↦ absurd (omega (arith, low, sum, enough))
        | inr (at, some_one) ↦ absurd (omega (arith, some_one, c))
      ]

  holder_moves :
      (s : Sys) → Inv s → s.locked ≡ true → (t : Turn) × (t ≢ spurious) × (left (step t s) < left s)
  holder_moves s v busy = elim (dec_lt 0 (watch_holds s.watch)) [
    | yes w ↦
        let (ne, l) = watch_holder s.watch w in
        (watcher, λ q. cc, watch_moves s.watch s refl (λ z. absurd (omega (arith, w, z))) ne l)
    | no n ↦
        let one : 1 ≤ total holds s.incs =
          omega (arith, n, v.owner ∙ ap (λ b. if b then 1 else 0) busy) in
        let (k, pc, e, h) = total-pos holds s.incs one in
        (
          inc k,
          λ q. cc,
          inc_moves k pc s e (λ z. absurd (omega (arith, h, z))) (v.bounded k pc e)
              (holder_left pc h (v.bounded k pc e)),
        )
  ]

  free_moves :
      (s : Sys)
      → Inv s
      → length s.incs ≡ counters
      → s.locked ≡ false
      → 1 ≤ left s
      → (t : Turn) × (t ≢ spurious) × (left (step t s) < left s)
  free_moves s v n free some_left = elim (dec_lt 0 (total inc_left s.incs)) [
    | yes more ↦
        let (k, pc, e, h) = total-pos inc_left s.incs more in
        (inc k, λ q. cc, inc_moves k pc s e (λ z. free) (v.bounded k pc e) h)
    | no out ↦ (
      watcher,
      λ q. cc,
      watch_moves s.watch s refl (λ z. free) (not_waiting s v n (omega (arith, out)))
          (omega (arith, out, some_left)),
    )
  ]

  some_moves :
      (s : Sys)
      → Inv s
      → length s.incs ≡ counters
      → 1 ≤ left s
      → (t : Turn) × (t ≢ spurious) × (left (step t s) < left s)
  some_moves s v n some_left = elim (Bool-cases s.locked) [
    | inl busy ↦ holder_moves s v busy
    | inr free ↦ free_moves s v n free some_left
  ]

  asked_cons : (t : Turn) (ts : List Turn) → t ≢ spurious → asked ts ≡ true → asked (t ∷ ts) ≡ true
  asked_cons (inc k) ts ne h = h
  asked_cons watcher ts ne h = h
  asked_cons spurious ts ne h = absurd (ne refl)

  goes_on :
      (fuel : ℕ) (s : Sys)
      → Inv s
      → length s.incs ≡ counters
      → left s ≤ fuel
      → (more : List Turn) × (asked more ≡ true) × (left (run more s) ≡ 0)
  unfolding run
  goes_on zero s v n h = ([], refl, omega (arith, h))
  goes_on (suc fuel) s v n h = elim (dec_lt 0 (left s)) [
    | no none_left ↦ ([], refl, omega (arith, none_left))
    | yes some_left ↦
        let (t, ne, less) = some_moves s v n some_left in
        let (more, calm, e) =
          goes_on fuel (step t s) (step-Inv t s v) (step-length t s ∙ n) (omega (arith, less, h)) in
        (t ∷ more, asked_cons t more ne calm, e)
  ]

  watch_end : (w : WatchPc) → watch_left w ≡ 0 → w ≡ finished
  watch_end w h = ground (arith, h)

  -- If the counting threads together count up to the threshold, there is no deadlock: from every state
  -- that a schedule leads to, another schedule, in which nothing but the signal wakes the watcher, leads
  -- to the end of all threads, with the count at the number of all rounds and 100 more.
  pub all_can_finish :
      (ts : List Turn)
      → (more : List Turn) × (asked more ≡ true)
        × (ended (run more (run ts (begin counters))).incs ≡ true)
        × ((run more (run ts (begin counters))).watch ≡ finished)
        × ((run more (run ts (begin counters))).count ≡ counters * tcount + 100)
  all_can_finish ts =
      let s = run ts (begin counters) in
      let v = run-Inv ts (begin counters) (begin-Inv counters) in
      let n : length s.incs ≡ counters =
        run-length ts (begin counters) ∙ length-replicate counters (idle 0) in
      let (more, calm, e) = goes_on (left s) s v n (omega arith) in
      let u = run more s in
      let v' = run-Inv more s v in
      let out = all_out u.incs v'.bounded (omega (arith, e)) in
      let w = watch_end u.watch (omega (arith, e)) in
      let (r, h, c) = ended-total u.incs out (λ k pc q. (v'.bounded k pc q).0) in
      (
        more,
        calm,
        out,
        w,
        v'.sum
            ∙ ap (λ m. m + added u.watch) (r ∙ ap (λ m. m * tcount) (run-length more s ∙ n))
            ∙ ap (λ a. counters * tcount + added a) w,
      )
