-- ===== src/Work/Options.antt =====
-- 05-synchronization/sync_working_threads_partial_sem.c: parse_options, and main with what it sets. A
-- switch carries the number that atoi or atof reads from its argument; `double` is a parameter, with
-- DEF_WAIT_S and MAX_WAIT_S as its two constants. Texts are left out.
use nnos.Prelude.{
  ◌≤◌, ◌≡◌, inl, inr, List, [], ◌∷◌, ◌++◌, if◌then◌else◌, Act, ◌>>◌, skip, modify, exit, done,
  Run-cases, arith,
}
use nnos.Prelude.Int.{ℤ, pos, ltb_ℤ, pos_part, ◌+ℤ◌, ◌-ℤ◌}
use nnos.Traceroute.Options.{Double}
use nnos.Work.{Sync, returned, Turn}
use nnos.Work.Count.{IsSync}
use nnos.Work.Safety.{IsFresh, after}
use nnos.Work.Progress.{IsOpen, do_all_can_return}

module _ (d : Double) where
  -- the globals that parse_options sets
  pub record Options : Type 0 where
    pub num_work : ℤ
    pub num_threads : ℤ
    pub wait_s : d.Value
    pub verbose : ℤ

  abbrev pub default_options : Options
  default_options = record {
    num_work = pos 33;
    num_threads = pos 10;
    wait_s = d.def_timeout;
    verbose = pos 0;
  }

  -- what getopt returns for "hVvqt:n:w:"
  pub data Switch : Type 0 where
    opt_h opt_version opt_v opt_q unknown : Switch
    opt_n opt_t : ℤ → Switch
    opt_w : d.Value → Switch

  -- at most `high`, then at least 1
  abbrev pub limited : (high n : ℤ) → ℤ
  limited high n =
      let n' = if ltb_ℤ high n then high else n in if ltb_ℤ n' (pos 1) then pos 1 else n'

  unfoldable pub parse_option : Switch → Act Options (Unit {0})
  parse_option opt_h = exit 0
  parse_option opt_version = exit 0
  parse_option opt_v = modify (λ o. record o {
    verbose = if ltb_ℤ o.verbose (pos 100) then o.verbose +ℤ pos 1 else o.verbose;
  })
  parse_option opt_q = modify (λ o. record o {
    verbose = if ltb_ℤ (pos 0) o.verbose then o.verbose -ℤ pos 1 else o.verbose;
  })
  parse_option (opt_n n) = modify (λ o. record o { num_work = limited (pos 1000) n })
  parse_option (opt_t n) = modify (λ o. record o { num_threads = limited (pos 100) n })
  parse_option (opt_w t) =
      let capped = if d.lt d.max_timeout t then d.max_timeout else t in
      modify (λ o. record o { wait_s = if d.lt capped d.zero_s then d.zero_s else capped })
  parse_option unknown = exit 1

  unfoldable pub parse_options : List Switch → Act Options (Unit {0})
  parse_options [] = skip
  parse_options (o ∷ os) = let rest = parse_options os in do parse_option o; rest

  -- the options as do_all may rely on them
  pub record InRange (o : Options) : Type 0 where
    pub some_work : 1 ≤ pos_part o.num_work
    pub work_bound : pos_part o.num_work ≤ 1000
    pub some_threads : 1 ≤ pos_part o.num_threads
    pub threads_bound : pos_part o.num_threads ≤ 100

  parse_option-InRange :
      (x : Switch) (o p : Options) → InRange o → parse_option x o ≡ done tt p → InRange p
  unfolding parse_option
  parse_option-InRange x o p v h = ground arith

  parse_options-InRange :
      (xs : List Switch) (o p : Options) → InRange o → parse_options xs o ≡ done tt p → InRange p
  unfolding parse_options
  parse_options-InRange [] o p v h = ground arith
  parse_options-InRange (x ∷ xs) o p v h = elim (Run-cases (parse_option x o)) [
    | inl (_, m, e) ↦ parse_options-InRange xs m p (parse_option-InRange x o m v e) (ground arith)
    | inr (inl (c, m, e)) ↦ absurd (ground arith)
    | inr (inr e) ↦ absurd (ground arith)
  ]

  -- Whatever the command line holds, if parse_options returns, there are 1 to 1000 computations and 1
  -- to 100 threads; and with semaphores that behave as documented and start with one unit for each
  -- thread, and a pthread_create that stores the id of the new thread before that thread runs, every
  -- schedule of do_all can be continued until it has joined the results thread: no deadlock.
  pub main_can_return :
      (y : Sync) (law : IsSync y) (xs : List Switch) (o : Options) (q : y.State) (ts : List Turn)
      → IsOpen law
      → parse_options xs default_options ≡ done tt o
      → IsFresh law (pos_part o.num_threads) q
      → InRange o
        × ((us : List Turn) × ((after y
                (pos_part o.num_work)
                (pos_part o.num_threads)
                q
                (ts ++ us)).main
              ≡ returned))
  main_can_return y law xs o q ts isOpen read fresh =
      let start : InRange default_options = record {
        some_work = omega arith;
        work_bound = omega arith;
        some_threads = omega arith;
        threads_bound = omega arith;
      } in
      let v = parse_options-InRange xs default_options o start read in
      (
        v,
        do_all_can_return y law isOpen (pos_part o.num_work) (pos_part o.num_threads) q ts fresh
            v.some_threads,
      )
