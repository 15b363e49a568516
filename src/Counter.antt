-- ===== src/Counter.antt =====
-- 05-synchronization/sync_cond_var.c: threads that count up under a mutex, and one that waits on a
-- condition variable for the count to reach a threshold. One step is one call or one access to `count`
-- of a thread: count++ and count += 100 read it in one step and write it in another. A waiter may also
-- wake up without a signal, as POSIX allows. The texts and sleep are left out.
pub mod Invariant
pub mod Steps
pub mod Final
pub mod Progress
mod Tests
use nnos.Prelude.{
  ℕ, zero, suc, ◌+◌, ◌≡◌, Bool, true, false, Option, none, some, List, [], ◌∷◌, if◌then◌else◌, ltb,
  ◌==◌, get_elem?, set, replicate,
}

abbrev pub tcount : ℕ
tcount = 10

abbrev pub count_threshold : ℕ
count_threshold = 12

-- inc_count, with the number of rounds before this one
pub data IncPc : Type 0 where
  idle : ℕ → IncPc  -- at the test of the loop, and then before pthread_mutex_lock
  entered : ℕ → IncPc  -- before count++
  loaded : ℕ → (value : ℕ) → IncPc  -- count++ has read `value`
  counted : ℕ → IncPc  -- at the comparison with the threshold
  leaving : ℕ → IncPc  -- before pthread_mutex_unlock

pub data WatchPc : Type 0 where
  starting : WatchPc  -- before pthread_mutex_lock
  testing : WatchPc  -- at the comparison with the threshold
  waiting : WatchPc  -- inside pthread_cond_wait, the mutex is released
  woken : WatchPc  -- inside pthread_cond_wait, before it has the mutex again
  resumed : WatchPc  -- before count += 100
  adding : (value : ℕ) → WatchPc  -- count += 100 has read `value`
  unlocking : WatchPc  -- before pthread_mutex_unlock
  finished : WatchPc

pub record Sys : Type 0 where
  pub count : ℕ
  pub locked : Bool
  pub watch : WatchPc
  pub incs : List IncPc

pub data Turn : Type 0 where
  inc : ℕ → Turn
  watcher spurious : Turn

-- main, before it waits for the threads
abbrev pub begin : (counters : ℕ) → Sys
begin counters = record {
  count = 0;
  locked = false;
  watch = starting;
  incs = replicate counters (idle 0);
}

-- pthread_cond_signal
abbrev pub signal : WatchPc → WatchPc
signal waiting = woken
signal pc = pc

abbrev pub put_inc : ℕ → IncPc → Sys → Sys
put_inc k pc s = record s { incs = set s.incs k pc }

-- a step of the thread `k`, which stands at `pc`
unfoldable pub step_inc : ℕ → IncPc → Sys → Sys
step_inc k (idle i) s =
    if ltb i tcount
    then (if s.locked then s else put_inc k (entered i) (record s { locked = true }))
    else s
step_inc k (entered i) s = put_inc k (loaded i s.count) s
step_inc k (loaded i v) s = put_inc k (counted i) (record s { count = suc v })
step_inc k (counted i) s =
    put_inc k (leaving i)
      (if s.count == count_threshold then record s { watch = signal s.watch } else s)
step_inc k (leaving i) s = put_inc k (idle (suc i)) (record s { locked = false })

-- a step of watch_count
unfoldable pub step_watch : WatchPc → Sys → Sys
step_watch starting s = if s.locked then s else record s { watch = testing; locked = true }
step_watch testing s =
    if ltb s.count count_threshold
    then record s { watch = waiting; locked = false }
    else record s { watch = resumed }
step_watch waiting s = s
step_watch woken s = if s.locked then s else record s { watch = resumed; locked = true }
step_watch resumed s = record s { watch = adding s.count }
step_watch (adding v) s = record s { watch = unlocking; count = v + 100 }
step_watch unlocking s = record s { watch = finished; locked = false }
step_watch finished s = s

abbrev pub inc_at : ℕ → Option IncPc → Sys → Sys
inc_at k none s = s
inc_at k (some pc) s = step_inc k pc s

-- A thread that is blocked or has ended stays where it is.
unfoldable pub step : Turn → Sys → Sys
step (inc k) s = inc_at k (get_elem? s.incs k) s
step watcher s = step_watch s.watch s
step spurious s = record s { watch = signal s.watch }

unfoldable pub run : List Turn → Sys → Sys
run [] s = s
run (t ∷ ts) s = run ts (step t s)
