-- ===== src/Bank/Tests.antt =====
-- The deposit threads on concrete inputs.
use nnos.Prelude.{
  ◌≡◌, refl, ℕ, true, false, some, List, [], ◌∷◌, Run, done, get_elem?, arith, ◌++◌, ◌*◌,
}
use nnos.Prelude.Int.{ℤ, pos, negsuc, ◌+ℤ◌, ◌-ℤ◌, ◌*ℤ◌}
use nnos.Kernel.Simple.{simple, simple-Contract}
use nnos.Section.{cs_init, init_method, Globals, mutex}
use nnos.Section.Access.{enter_step, enter_method, cs_leave, leave_method}
use nnos.Section.Free.{IsReady}
use nnos.Section.AsLock.{section_lock, section-IsLock}
use nnos.Section.Example.{booted, opened, opened_lem}
use nnos.Bank.{
  Config, Opt, opt_c, opt_t, opt_m, defaults, eval_args, eval_opt, deposit_money, expected_balance,
  exit_status,
}
use nnos.Bank.Threads.{inside, run, step, move, created, all_finished}
use nnos.Bank.Invariant.{after}
use nnos.Bank.Safety.{mutual_exclusion}
use nnos.Bank.Template.{Template, no_lock}
use nnos.Bank.Template
use nnos.Bank.Lost.{template_can_fail}
use nnos.Bank.Main.{main}
use nnos.Bank.Outcome.{main_success, main_returns}
use nnos.Bank.Liveness.{can_finish}
use nnos.Bank.Wrap.{wrapped_count_fails}

abbrev args : List Opt
args = opt_m (pos 4) ∷ opt_c (pos 2) ∷ opt_t (pos 1) ∷ []

abbrev small : Config
small = record defaults { cs_method = pos 4; thread_count = 2; bank_transactions_per_thread = 1 }

-- thread 1 waits at the lock while thread 0 is inside
abbrev schedule : List ℕ
schedule = 0 ∷ 0 ∷ 1 ∷ 1 ∷ 0 ∷ 1 ∷ 0 ∷ 0 ∷ 0 ∷ 1 ∷ 1 ∷ 1 ∷ 1 ∷ 1 ∷ []

evaluated : eval_args args defaults ≡ done tt small
unfolding eval_args eval_opt
evaluated = refl

ready : IsReady simple simple-Contract mutex opened
ready = record { used = refl; configured = tt }

finish :
    all_finished
      (section_lock simple)
      (run
        (section_lock simple)
        small
        schedule
        (created (section_lock simple) small opened)).threads
    ≡ true
unfolding run step move all_finished enter_step enter_method cs_leave leave_method deposit_money
finish = refl

-- everything.h as the header: its cs_init does not take the number of threads
abbrev header : ℤ → ℕ → Globals simple → Run (Globals simple) (Unit {0})
header method threads s = cs_init simple method s

exits : main (section_lock simple) header args defaults 0 true schedule booted ≡ some 0
unfolding main eval_args eval_opt run step move all_finished enter_step enter_method cs_leave
    leave_method deposit_money expected_balance exit_status cs_init init_method ◌+ℤ◌ ◌-ℤ◌ ◌*ℤ◌
exits = refl

-- the places of the threads when thread 1 has tried the lock
abbrev early : List ℕ
early = 0 ∷ 0 ∷ 1 ∷ 1 ∷ []

zeroth_inside :
    get_elem?
      (run (section_lock simple) small early (created (section_lock simple) small opened)).threads
      0
    ≡ some (inside 0)
unfolding run step move enter_step enter_method
zeroth_inside = refl

abbrev zeroth : ℕ
zeroth = 0

mutual_exclusion_example : zeroth ≡ zeroth
unfolding simple-Contract section-IsLock
mutual_exclusion_example =
    mutual_exclusion (section_lock simple) (section-IsLock simple simple-Contract mutex tt) small
      opened early 0 0 (inside 0) (inside 0) ready refl zeroth_inside zeroth_inside refl refl

-- the exit status of main
abbrev status : ℕ
status = 0

main_success_example : status ≡ 0
unfolding simple-Contract section-IsLock
main_success_example =
    main_success (section_lock simple) (section-IsLock simple simple-Contract mutex tt) header args
      defaults small schedule booted opened status evaluated refl (omega arith) opened_lem ready
      refl exits

abbrev unlocked : Globals simple
unlocked = record booted { cs_method_used = pos 1 }

abbrev huge : Config
huge = record defaults { thread_count = 512; bank_transactions_per_thread = 8388608 }

wrapped_count_fails_example : exit_status (after huge (512 * 8388608)) (expected_balance huge) ≡ 1
wrapped_count_fails_example = wrapped_count_fails huge (omega arith) (λ e. cc)

main_returns_example :
    (ls : List ℕ) × (main (section_lock simple) header args defaults 0 true (early ++ ls) booted
      ≡ some 0)
unfolding simple-Contract section-IsLock
main_returns_example =
    main_returns (section_lock simple) (section-IsLock simple simple-Contract mutex tt) header args
      defaults small early booted opened evaluated refl (omega arith) opened_lem ready refl

can_finish_example :
    (ls : List ℕ) × (all_finished
        (section_lock simple)
        (run
          (section_lock simple)
          small
          (early ++ ls)
          (created (section_lock simple) small opened)).threads
      ≡ true)
unfolding simple-Contract section-IsLock
can_finish_example =
    can_finish (section_lock simple) (section-IsLock simple simple-Contract mutex tt) small opened
      early ready refl

abbrev unset_header : Template
unset_header = record { cs_method_used = negsuc 0; cs_var_allocated = false }

-- With the header as it stands both threads read the account before either writes it.
lost_deposit :
    main no_lock Template.cs_init args defaults 0 true
      (0 ∷ 0 ∷ 0 ∷ 1 ∷ 1 ∷ 1 ∷ 0 ∷ 0 ∷ 0 ∷ 1 ∷ 1 ∷ 1 ∷ [])
      unset_header
    ≡ some 1
unfolding main eval_args eval_opt run step move all_finished deposit_money expected_balance
    exit_status Template.cs_init ◌+ℤ◌ ◌-ℤ◌ ◌*ℤ◌
lost_deposit = refl

template_can_fail_example :
    (ks : List ℕ) × (main no_lock Template.cs_init args defaults 0 true ks unset_header ≡ some 1)
template_can_fail_example =
    template_can_fail args defaults small unset_header evaluated refl refl refl refl (λ e. cc)
