-- ===== src/Order.antt =====
-- 05-synchronization/sync_assignment_cond.c: the second thread prints 1 and main prints 2, ordered by
-- a mutex and a condition variable. One step is one call of a thread. sleep and everything else that
-- takes time is a choice of the schedule. The condition variable has no memory, as pthreads document
-- it: a signal wakes main if main waits, and is lost otherwise. A waiter that POSIX wakes without a
-- signal is a step of its own, `spurious_wakeup`.
pub mod Invariant
pub mod Lost
mod Tests
use nnos.Prelude.{ℕ, ◌≡◌, Bool, true, false, Option, none, some, List, [], ◌∷◌, ◌++◌, if◌then◌else◌}

-- where the thread stands inside f1
pub data FirstPc : Type 0 where
  working : FirstPc  -- before pthread_mutex_lock
  entered : FirstPc  -- before printf
  printed_1 : FirstPc  -- before pthread_cond_signal
  signalled : FirstPc  -- before pthread_mutex_unlock
  ended : FirstPc

-- where main stands inside f2 and after it
pub data MainPc : Type 0 where
  arriving : MainPc  -- before pthread_mutex_lock
  checking : MainPc  -- before pthread_cond_wait
  waiting : MainPc  -- inside pthread_cond_wait, the mutex is released
  woken : MainPc  -- inside pthread_cond_wait, before it has the mutex again
  resumed : MainPc  -- before printf
  printed_2 : MainPc  -- before pthread_mutex_unlock
  joining : MainPc  -- before pthread_join
  returned : MainPc

pub record Sys : Type 0 where
  pub first : FirstPc
  pub main : MainPc
  pub locked : Bool
  pub output : List ℕ

abbrev pub begin : Sys
begin = record { first = working; main = arriving; locked = false; output = [] }

pub data Who : Type 0 where
  thread_f1 main_thread : Who

-- pthread_cond_signal
abbrev pub signal : MainPc → MainPc
signal waiting = woken
signal pc = pc

-- a step of f1; `none` where the thread is blocked or has ended
unfoldable pub step_f1 : FirstPc → Sys → Option Sys
step_f1 working s = if s.locked then none else some (record s { first = entered; locked = true })
step_f1 entered s = some (record s { first = printed_1; output = s.output ++ 1 ∷ [] })
step_f1 printed_1 s = some (record s { first = signalled; main = signal s.main })
step_f1 signalled s = some (record s { first = ended; locked = false })
step_f1 ended s = none

-- pthread_join
abbrev pub join : FirstPc → Sys → Option Sys
join ended s = some (record s { main = returned })
join pc s = none

-- a step of main
unfoldable pub step_main : MainPc → Sys → Option Sys
step_main arriving s = if s.locked then none else some (record s { main = checking; locked = true })
step_main checking s = some (record s { main = waiting; locked = false })
step_main waiting s = none
step_main woken s = if s.locked then none else some (record s { main = resumed; locked = true })
step_main resumed s = some (record s { main = printed_2; output = s.output ++ 2 ∷ [] })
step_main printed_2 s = some (record s { main = joining; locked = false })
step_main joining s = join s.first s
step_main returned s = none

unfoldable pub step : Who → Sys → Option Sys
step thread_f1 s = step_f1 s.first s
step main_thread s = step_main s.main s

abbrev pub wake : MainPc → Sys → Option Sys
wake waiting s = some (record s { main = woken })
wake pc s = none

unfoldable pub spurious_wakeup : Sys → Option Sys
spurious_wakeup s = wake s.main s

-- a schedule; a turn of a thread that cannot move does not count
unfoldable pub run : List Who → Sys → Option Sys
run [] s = some s
run (p ∷ ps) s = elim (step p s) [ none ↦ none | some t ↦ run ps t ]

-- what can be reached without a wakeup that nobody asked for
pub data Reach (s : Sys) : Sys → Type 0 where
  here : Reach s s
  next : {t u : Sys} (p : Who) → Reach s t → step p t ≡ some u → Reach s u
