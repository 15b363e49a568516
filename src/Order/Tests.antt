-- ===== src/Order/Tests.antt =====
-- The ordered output on concrete schedules.
use nnos.Prelude.{◌≡◌, ◌≢◌, ◌⊎◌, true, false, some, [], ◌∷◌, refl}
use nnos.Order.{
  entered, arriving, printed_2, returned, working, waiting, woken, Sys, begin, thread_f1,
  main_thread, step, step_f1, step_main, run, spurious_wakeup, Reach, here, next,
}
use nnos.Order.Invariant.{sys, has_woken, in_order}
use nnos.Order.Lost.{late_forever}

-- f1 has the mutex first
abbrev f1_first : Sys
f1_first = sys entered arriving true []

stepped : step thread_f1 begin ≡ some f1_first
unfolding step step_f1
stepped = refl

f1_first-Reach : Reach begin f1_first
f1_first-Reach = next thread_f1 here stepped

in_order_example :
    (f1_first.output ≡ []) ⊎ ((f1_first.output ≡ 1 ∷ []) ⊎ (f1_first.output ≡ 1 ∷ 2 ∷ []))
in_order_example = in_order f1_first f1_first-Reach

late_forever_example :
    (has_woken f1_first.main ≡ false)
    × (f1_first.main ≢ returned)
    × ((f1_first.output ≡ []) ⊎ (f1_first.output ≡ 1 ∷ []))
late_forever_example = late_forever f1_first f1_first f1_first-Reach refl here

-- After a wakeup without a signal main prints 2 while nothing has been printed.
abbrev main_waits : Sys
main_waits = sys working waiting false []

woken_early : spurious_wakeup main_waits ≡ some (sys working woken false [])
unfolding spurious_wakeup
woken_early = refl

prints_2_first :
    run (main_thread ∷ main_thread ∷ []) (sys working woken false [])
    ≡ some (sys working printed_2 true (2 ∷ []))
unfolding run step step_main
prints_2_first = refl
