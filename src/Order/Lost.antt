-- ===== src/Order/Lost.antt =====
-- The lost wakeup: which schedules let the program return.
use nnos.Prelude.{
  ℕ, ◌≡◌, ◌≢◌, ◌⊎◌, Bool, true, false, Option, none, some, List, [], ◌∷◌, ◌++◌, refl, arith,
}
use mathlib.Core.Path.{subst}
use nnos.Order.{
  FirstPc, working, entered, printed_1, signalled, ended, MainPc, arriving, checking, waiting,
  resumed, printed_2, joining, returned, Sys, begin, Who, thread_f1, main_thread, step, step_f1,
  step_main, run, Reach, here, next,
}
use nnos.Order.Invariant.{
  IsOrdered, reached-IsOrdered, sys, text, has_signalled, has_woken, has_printed_2, step-IsOrdered,
}

abbrev pub is_waiting : MainPc → Bool
is_waiting waiting = true
is_waiting _ = false

-- main waits for the signal before it comes, or can still do so
abbrev pub on_time : FirstPc → MainPc → Bool
on_time working m = true
on_time entered m = is_waiting m
on_time printed_1 m = is_waiting m
on_time signalled m = has_woken m
on_time ended m = has_woken m

abbrev StaysLate : Option Sys → Type 0
StaysLate none = Unit
StaysLate (some t) = on_time t.first t.main ≡ false

step_f1-StaysLate :
    (f : FirstPc) (m : MainPc) (l : Bool) (o : List ℕ)
    → IsOrdered (sys f m l o)
    → on_time f m ≡ false
    → StaysLate (step_f1 f (sys f m l o))
unfolding step_f1
step_f1-StaysLate working m l o i late = absurd (cc)
step_f1-StaysLate entered m l o i late = late
step_f1-StaysLate printed_1 m l o i late = ground (arith, i.after_signal)
step_f1-StaysLate signalled m l o i late = late
step_f1-StaysLate ended m l o i late = tt

step_main-StaysLate :
    (f : FirstPc) (m : MainPc) (l : Bool) (o : List ℕ)
    → IsOrdered (sys f m l o)
    → on_time f m ≡ false
    → StaysLate (step_main m (sys f m l o))
unfolding step_main
step_main-StaysLate f m l o i late = ground (arith, i.after_signal, i.alone, i.owner)

step_late :
    (p : Who) (s t : Sys)
    → IsOrdered s
    → on_time s.first s.main ≡ false
    → step p s ≡ some t
    → on_time t.first t.main ≡ false
unfolding step
step_late thread_f1 s t i late e =
    subst StaysLate e (step_f1-StaysLate s.first s.main s.locked s.output i late)
step_late main_thread s t i late e =
    subst StaysLate e (step_main-StaysLate s.first s.main s.locked s.output i late)

Reach-late :
    {s t : Sys}
    → Reach s t
    → IsOrdered s
    → on_time s.first s.main ≡ false
    → IsOrdered t × (on_time t.first t.main ≡ false)
Reach-late here i late = (i, late)
Reach-late (next {t = t} {u = u} p r e) i late =
    let (j, l) = Reach-late r i late in (step-IsOrdered p t u j e, step_late p t u j l e)

only_1 : (f : FirstPc) → (text f arriving ≡ []) ⊎ (text f arriving ≡ 1 ∷ [])
only_1 f = ground arith

late_apart :
    (f : FirstPc) (m : MainPc)
    → (has_woken m ≡ true → has_signalled f ≡ true)
    → on_time f m ≡ false
    → (has_woken m ≡ false) × (m ≢ returned) × (has_printed_2 m ≡ false)
late_apart f arriving h late = (refl, λ e. cc, refl)
late_apart f checking h late = (refl, λ e. cc, refl)
late_apart f waiting h late = (refl, λ e. cc, refl)
late_apart f m h late = absurd (ground (arith, h))

-- Once f1 has the mutex and main has not called pthread_cond_wait, or the signal has come while main
-- did not wait, main never wakes up in a schedule without a wakeup that nobody asked for: it does not
-- return, and 2 is not printed.
pub late_forever :
    (s t : Sys)
    → Reach begin s
    → on_time s.first s.main ≡ false
    → Reach s t
    → (has_woken t.main ≡ false) × (t.main ≢ returned) × ((t.output ≡ []) ⊎ (t.output ≡ 1 ∷ []))
late_forever s t r late rest =
    let (j, l) = Reach-late rest (reached-IsOrdered r) late in
    let (not_woken, out, no_2) = late_apart t.first t.main j.after_signal l in
    (not_woken, out, rw (j.printed, no_2) (only_1 t.first))

-- how main gets to its end from where the threads stand
abbrev main_turns : MainPc → List Who
main_turns arriving = main_thread ∷ main_thread ∷ []
main_turns checking = main_thread ∷ []
main_turns _ = []

abbrev f1_turns : FirstPc → List Who
f1_turns working = thread_f1 ∷ thread_f1 ∷ thread_f1 ∷ thread_f1 ∷ []
f1_turns entered = thread_f1 ∷ thread_f1 ∷ thread_f1 ∷ []
f1_turns printed_1 = thread_f1 ∷ thread_f1 ∷ []
f1_turns signalled = thread_f1 ∷ []
f1_turns ended = []

abbrev last_turns : MainPc → List Who
last_turns resumed = main_thread ∷ main_thread ∷ main_thread ∷ []
last_turns printed_2 = main_thread ∷ main_thread ∷ []
last_turns joining = main_thread ∷ []
last_turns returned = []
last_turns _ = main_thread ∷ main_thread ∷ main_thread ∷ main_thread ∷ []

abbrev plan : FirstPc → MainPc → List Who
plan f m = main_turns m ++ (f1_turns f ++ last_turns m)

plan_returns :
    (f : FirstPc) (m : MainPc) (l : Bool) (o : List ℕ)
    → IsOrdered (sys f m l o)
    → on_time f m ≡ true
    → run (plan f m) (sys f m l o) ≡ some (sys ended returned false (1 ∷ 2 ∷ []))
unfolding run step step_f1 step_main
plan_returns f m l o i e = ground (arith, i.owner, i.printed, i.alone, i.after_signal)

-- From every state that is not too late some schedule makes main return after 1 and 2 are printed.
pub can_return :
    (s : Sys)
    → Reach begin s
    → on_time s.first s.main ≡ true
    → (ps : List Who) × (run ps s ≡ some (sys ended returned false (1 ∷ 2 ∷ [])))
can_return s r e =
    (plan s.first s.main, plan_returns s.first s.main s.locked s.output (reached-IsOrdered r) e)
