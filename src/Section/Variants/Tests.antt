-- ===== src/Section/Variants/Tests.antt =====
-- The older headers on concrete inputs.
use nnos.Prelude.{◌≡◌, ◌≢◌, refl, true, some, done}
use nnos.Prelude.Int.{pos}
use nnos.Kernel.Simple.{simple, simple-Contract}
use nnos.Section.{Globals, mutex, sem_posix_named, polling, method_of}
use nnos.Section.Access.{enter_step}
use nnos.Section.Free.{free_of}
use nnos.Section.Example.{booted, opened}
use nnos.Section.Variants.Family.{semaphore_header, cs_init_of, cs_enter_of, cs_destroy_of}
use nnos.Section.Variants.Semaphores
use nnos.Section.Variants.Agree.{Same, cs_enter_of-Same}
use nnos.Section.Variants.Opens.{cs_init_of-opens}

abbrev taken : Globals simple
taken = record opened { world = record opened.world { lock = 0 } }

-- after cs_init of a method without code
abbrev unguarded : Globals simple
unguarded = record booted { cs_method_used = pos 9; cs_var_allocated = true }

cs_enter_of-Same_example :
    Same simple mutex opened
      (cs_enter_of simple semaphore_header polling opened)
      (enter_step simple polling opened)
cs_enter_of-Same_example =
    cs_enter_of-Same simple semaphore_header mutex refl opened polling refl tt

destroyed : cs_destroy_of simple semaphore_header opened ≡ done tt opened
unfolding cs_destroy_of Semaphores.cs_destroy Semaphores.destroy_method
destroyed = refl

initialised : cs_init_of simple semaphore_header (pos 4) booted ≡ done tt opened
unfolding cs_init_of Semaphores.cs_init Semaphores.init_method
initialised = refl

mutex_unnamed : mutex ≢ sem_posix_named
mutex_unnamed e = cc

cs_init_of-opens_example :
    (free_of simple simple-Contract mutex opened ≡ 1)
    × (method_of opened.cs_method_used ≡ some mutex)
    × (opened.cs_var_allocated ≡ true)
cs_init_of-opens_example =
    cs_init_of-opens simple simple-Contract semaphore_header mutex (pos 4) booted opened refl refl
      tt mutex_unnamed initialised
