-- ===== src/Work/Tests.antt =====
-- The working threads on a concrete run, with semaphores that are counters.
use nnos.Prelude.{
  ltb, done, ℕ, zero, suc, ◌+◌, ◌<◌, ◌≡◌, ◌≢◌, refl, true, false, Option, none, some, List, [], ◌∷◌,
  ◌++◌, arith,
}
use mathlib.Core.Option.{some-injective}
use mathlib.Core.Path.{subst}
use nnos.Prelude.Int.{pos}
use nnos.Traceroute.Options.{Double}
use nnos.Work.{
  Sync, completed, failed, returned, is_ended, Turn, main, results, worker, write, step_main,
  step_results, step_worker, step, run,
}
use nnos.Work.Count.{IsSync}
use nnos.Work.Progress.{IsOpen}
use nnos.Work.Options.{
  Options, default_options, Switch, opt_n, opt_t, parse_option, parse_options, InRange,
  main_can_return,
}
use nnos.Work.Safety.{IsFresh, after, always_finds, no_sharing, all_completed}

-- a `double` of whole microseconds
abbrev micros : Double
micros = record {
  Value = ℕ;
  lt = ltb;
  zero_s = 0;
  def_timeout = 5_000_000;
  max_timeout = 10_000_000;
}

abbrev less : ℕ → Option ℕ
less zero = none
less (suc n) = some n

abbrev Counters : Type 0
Counters = ℕ × (ℕ → ℕ)

abbrev with_available : (ℕ → ℕ) → Option ℕ → Option Counters
with_available r none = none
with_available r (some a) = some (a, r)

abbrev with_running : ℕ → Counters → Option ℕ → Option Counters
with_running w (a, r) none = none
with_running w (a, r) (some x) = some (a, write r w x)

abbrev counters : Sync
counters = record {
  State = Counters;
  wait_available = λ (a, r). with_available r (less a);
  post_available = λ (a, r). (a + 1, r);
  wait_running = λ w (a, r). with_running w (a, r) (less (r w));
  post_running = λ w (a, r). (a, write r w (r w + 1));
  id_first = true;
}

-- a wait that goes on has taken a unit
taken :
    (w a : ℕ) (r : ℕ → ℕ) (t : Counters) (x : ℕ)
    → r w ≡ x
    → with_running w (a, r) (less x) ≡ some t
    → (x ≡ t.1 w + 1) × ((k : ℕ) → k ≢ w → t.1 k ≡ r k) × (t.0 ≡ a)
taken w a r t zero e h = absurd (cc)
taken w a r t (suc x) e h =
    subst (λ u. (suc x ≡ u.1 w + 1) × ((k : ℕ) → k ≢ w → u.1 k ≡ r k) × (u.0 ≡ a))
      (some-injective (a, write r w x) t h) (ground arith, λ k ne. ground (arith, ne), refl)

not_taken : (w a : ℕ) (r : ℕ → ℕ) (x : ℕ) → r w ≡ x → with_running w (a, r) (less x) ≡ none → x ≡ 0
not_taken w a r zero e h = refl
not_taken w a r (suc x) e h = absurd (cc)

counters-IsSync : IsSync counters
counters-IsSync = record {
  available = λ s. s.0;
  running = λ k s. s.1 k;
  wait_available_lem = λ (a, r) t h. ground (arith, h);
  post_available_lem = λ s. (refl, λ k. refl);
  wait_running_lem = λ w (a, r) t h. taken w a r t (r w) refl h;
  post_running_lem = λ w (a, r). (ground arith, λ k ne. ground (arith, ne), refl);
  id_first_lem = refl;
}

-- one unit for each of `n` threads
abbrev fresh : ℕ → Counters
fresh n = (n, λ w. 0)

fresh-IsFresh : (n : ℕ) → IsFresh counters-IsSync n (fresh n)
unfolding counters-IsSync
fresh-IsFresh n = record { all_available = refl; none_running = λ w. refl }

abbrev dispatch : List Turn
dispatch = main ∷ main ∷ main ∷ main ∷ main ∷ []

abbrev collect : List Turn
collect = results ∷ results ∷ results ∷ results ∷ results ∷ []

abbrev works : ℕ → List Turn
works k = worker k ∷ worker k ∷ worker k ∷ worker k ∷ []

-- two computations on one thread
abbrev schedule : List Turn
schedule =
    dispatch ++ main ∷ works 0 ++ collect ++ dispatch ++ works 1 ++ collect ++ results ∷ main ∷ []

over : (after counters 2 1 (fresh 1) schedule).main ≡ returned
unfolding run step step_main step_results step_worker
over = refl

always_finds_example : (after counters 2 1 (fresh 1) schedule).main ≢ failed
always_finds_example =
    always_finds counters counters-IsSync 2 1 (fresh 1) schedule (fresh-IsFresh 1)

all_completed_example :
    let s = after counters 2 1 (fresh 1) schedule in
    (s.created ≡ 2) × (is_ended (s.workers 1).pc ≡ true) × ((s.work 1).state ≡ completed)
all_completed_example =
    all_completed counters counters-IsSync 2 1 (fresh 1) schedule 1 (fresh-IsFresh 1) over
      (omega arith)

-- pthread_create stores the id of the second thread only after main and that thread have gone on: the
-- results thread joins the first one again, and main returns while the second still runs.
abbrev late : Sync
late = record counters { id_first = false }

abbrev stale : List Turn
stale =
    dispatch
    ++ works 0
    ++ collect
    ++ main ∷ main ∷ main ∷ main ∷ worker 1 ∷ worker 1 ∷ collect
    ++ results ∷ main ∷ main ∷ []

joined_too_early :
    let s = after late 2 1 (fresh 1) stale in
    (s.main ≡ returned) × (is_ended (s.workers 1).pc ≡ false)
unfolding run step step_main step_results step_worker
joined_too_early = (refl, refl)

-- two computations on two threads
abbrev both : List Turn
both = dispatch ++ dispatch ++ main ∷ worker 1 ∷ worker 1 ∷ worker 0 ∷ []

no_sharing_example :
    let s = after counters 2 2 (fresh 2) both in
    ((s.workers 0).thread_idx < 2)
    × ((s.workers 1).thread_idx < 2)
    × ((s.workers 0).thread_idx ≢ (s.workers 1).thread_idx)
unfolding run step step_main step_results step_worker
no_sharing_example =
    no_sharing counters counters-IsSync 2 2 (fresh 2) both 0 1 (fresh-IsFresh 2) (omega arith)
      (omega arith) refl refl (omega arith)

counters-IsOpen : IsOpen counters-IsSync
unfolding counters-IsSync
counters-IsOpen = record {
  available_open = λ (a, r) h. ground (arith, h);
  running_open = λ w (a, r) h. not_taken w a r (r w) refl h;
}

-- "-n 2 -t 0", where the threads are set to 1
abbrev switches : List (Switch micros)
switches = opt_n (pos 2) ∷ opt_t (pos 0) ∷ []

abbrev chosen : Options micros
chosen = record (default_options micros) { num_work = pos 2; num_threads = pos 1 }

switches_read : parse_options micros switches (default_options micros) ≡ done tt chosen
unfolding parse_options parse_option
switches_read = refl

main_can_return_example :
    InRange micros chosen
    × ((us : List Turn) × ((after counters 2 1 (fresh 1) (dispatch ++ us)).main ≡ returned))
main_can_return_example =
    main_can_return micros counters counters-IsSync switches chosen (fresh 1) dispatch
      counters-IsOpen switches_read (fresh-IsFresh 1)
