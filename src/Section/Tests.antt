-- ===== src/Section/Tests.antt =====
-- everything.h on concrete inputs.
use nnos.Prelude.{◌≡◌, refl, true, false, some, done, exited, arith}
use nnos.Prelude.Int.{pos}
use nnos.Kernel.Simple.{simple, simple-Contract}
use nnos.Section.{
  method_of, Globals, mutex, polling, cs_init, init_method, cs_destroy, destroy_method,
  exit_failure,
}
use nnos.Section.Access.{enter_step, cs_leave}
use nnos.Section.Free.{free_of, IsReady}
use nnos.Section.Lock.{Steps, enter_step-Steps, cs_leave-free}
use nnos.Section.Exits.{InitOutcome, preparing_fails, cs_init_failure, cs_init-undefined}
use nnos.Section.Init.{cs_init-opens}
use nnos.Section.Example.{booted, opened, opened_lem}

ready : IsReady simple simple-Contract mutex opened
ready = record { used = refl; configured = tt }

abbrev taken : Globals simple
taken = record opened { world = record opened.world { lock = 0 } }

abbrev closed : Globals simple
closed = record opened { cs_var_allocated = false }

abbrev undefined_method : Globals simple
undefined_method = record booted { cs_method_used = pos 10 }

destroyed : cs_destroy simple opened ≡ done tt closed
unfolding cs_destroy destroy_method
destroyed = refl

no_method : cs_init simple (pos 10) booted ≡ exited exit_failure undefined_method
unfolding cs_init init_method
no_method = refl

cs_init-opens_example :
    (free_of simple simple-Contract mutex opened ≡ 1)
    × IsReady simple simple-Contract mutex opened
    × (opened.cs_var_allocated ≡ true)
unfolding simple-Contract
cs_init-opens_example =
    cs_init-opens simple simple-Contract (pos 4) mutex booted opened refl tt opened_lem

enter_step-Steps_example :
    Steps simple simple-Contract mutex opened (enter_step simple polling opened)
unfolding simple-Contract
enter_step-Steps_example =
    enter_step-Steps simple simple-Contract mutex polling opened tt ready (omega arith)

cs_leave-free_example :
    (t : Globals simple) × (cs_leave simple taken ≡ some t)
    × (free_of simple simple-Contract mutex t ≡ 1)
    × IsReady simple simple-Contract mutex t
unfolding simple-Contract
cs_leave-free_example =
    cs_leave-free simple simple-Contract mutex taken tt (record { used = refl; configured = tt })
      refl

cs_init_failure_example :
    InitOutcome simple
      (preparing_fails simple (method_of (pos 9)) booted.world)
      (cs_init simple (pos 9) booted)
cs_init_failure_example = cs_init_failure simple (pos 9) booted refl

cs_init-undefined_example : cs_init simple (pos 10) booted ≡ exited exit_failure undefined_method
cs_init-undefined_example = cs_init-undefined simple (pos 10) booted refl
