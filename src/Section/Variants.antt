-- ===== src/Section/Variants.antt =====
-- The five headers from which everything.h was put together, each with a part of its methods:
-- locked_testAset_xchng.h, mutex_sem_namedSem.h, sem_sysv.h, messageQueue_posix.h and
-- messageQueue_sysV.h. They declare the globals of everything.h that their methods use, so they
-- share its record; `semid` of sem_sysv.h is `sysv_semid`. Unlike everything.h they end the process
-- where a call of cs_enter or cs_leave fails.
pub mod BusyWait
pub mod Semaphores
pub mod SysvSemaphore
pub mod PosixQueue
pub mod SysvQueue
pub mod Family
pub mod Agree
pub mod Gaps
pub mod Opens
mod Tests
use nnos.Prelude.{ℕ, Bool, Option, none, some, if◌then◌else◌, Run, done, exited, blocked, Act, not}
use nnos.Prelude.Int.{ℤ, pos, negsuc, eqb_ℤ}
use nnos.Kernel.{Call, Os}
use nnos.Section.{Method, EnterPc, polling, Globals, exit_failure}

-- `r == -1`
abbrev pub is_minus_one : ℤ → Bool
is_minus_one r = eqb_ℤ r (negsuc 0)

-- `r`
abbrev pub is_nonzero : ℤ → Bool
is_nonzero r = not (eqb_ℤ r (pos 0))

module _ (os : Os) where
  -- One step of a cs_enter that may end the process: `some pc` while the thread is still inside it.
  abbrev pub Entering : Type 0
  Entering = Run (Globals os) (Option EnterPc)

  abbrev after_wait : (ℤ → Bool) → Globals os → Option (ℤ × os.World) → Entering
  after_wait fails s none = done (some polling) s
  after_wait fails s (some (r, w)) =
      if fails r
      then exited exit_failure (record s { world = w })
      else done none (record s { world = w })

  -- if (fails(call)) exit(EXIT_FAILURE), for a call that may block
  abbrev pub wait_step : Call → (ℤ → Bool) → Globals os → Entering
  wait_step c fails s = after_wait fails s (os.call c s.world)

  abbrev after_give : (ℤ → Bool) → Globals os → Option (ℤ × os.World) → Run (Globals os) (Unit {0})
  after_give fails s none = blocked
  after_give fails s (some (r, w)) =
      if fails r
      then exited exit_failure (record s { world = w })
      else done tt (record s { world = w })

  abbrev pub give_step : Call → (ℤ → Bool) → Globals os → Run (Globals os) (Unit {0})
  give_step c fails s = after_give fails s (os.call c s.world)
