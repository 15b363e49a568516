-- ===== src/Section/Variants/Agree.antt =====
-- The five headers against everything.h, for the methods that they have code for.
use nnos.Prelude.{
  ◌≡◌, Bool, true, false, Option, none, some, refl, arith, Run, done, exited, blocked,
}
use nnos.Kernel.{Os, Call}
use nnos.Prelude.Int.{ℤ}
use nnos.Section.{
  Method, locked, xchg, test_xchg, sem_posix, sem_posix_named, sem_sysv, mq_posix, mq_sysv,
  method_of, EnterPc, polling, claiming, Globals, exit_failure, enter_buf, message_size,
}
use nnos.Section.Access.{Progress, enter_method, enter_step, leave_method, cs_leave}
use nnos.Section.Free.{Configured}
use nnos.Section.Variants.{is_nonzero, is_minus_one}
use nnos.Section.Variants.BusyWait
use nnos.Section.Variants.Semaphores
use nnos.Section.Variants.SysvSemaphore
use nnos.Section.Variants.PosixQueue
use nnos.Section.Variants.SysvQueue
use nnos.Section.Variants.Family.{
  Header, locked_header, semaphore_header, sysv_header, queue_header, sysv_queue_header, has_code,
  enter_of, cs_enter_of, leave_of, cs_leave_of,
}

module _ (os : Os) where
  -- the call by which a method takes its place, if it makes one
  abbrev taking_call : Method → Globals os → Option Call
  taking_call Method.mutex s = some Call.mutex_lock
  taking_call sem_posix s = some Call.sem_wait
  taking_call sem_posix_named s = some (Call.named_wait s.cs_named_sem)
  taking_call sem_sysv s = some (Call.semop s.sysv_semid (enter_buf os))
  taking_call mq_posix s = some (Call.mq_receive s.message_queue message_size)
  taking_call mq_sysv s = some (Call.msgrcv s.mq_sysv 0)
  taking_call _ s = none

  -- whether the result of that call stands for a failure
  abbrev is_failure : Method → ℤ → Bool
  is_failure Method.mutex r = is_nonzero r
  is_failure sem_posix r = is_nonzero r
  is_failure sem_posix_named r = is_nonzero r
  is_failure _ r = is_minus_one r

  abbrev reply_fails : Method → Option (ℤ × os.World) → Bool
  reply_fails m none = false
  reply_fails m (some (r, w)) = is_failure m r

  abbrev call_fails : Method → os.World → Option Call → Bool
  call_fails m w none = false
  call_fails m w (some c) = reply_fails m (os.call c w)

  abbrev pub taking_fails : Method → Globals os → Bool
  taking_fails m s = call_fails m s.world (taking_call m s)

  -- A step of everything.h's cs_enter, with the value that `errno` has after the header's, where the
  -- call has not failed; EXIT_FAILURE where it has.
  abbrev pub Same : Method → Globals os → Run (Globals os) (Option EnterPc) → Progress os → Type 0
  Same m s (done p t) q = (q ≡ (p, record t { errno = s.errno })) × (taking_fails m s ≡ false)
  Same m s (exited c t) q = (c ≡ exit_failure) × (taking_fails m s ≡ true)
  Same m s blocked q = ⊥

  enter_of-Same :
      (h : Header) (m : Method) (pc : EnterPc) (s : Globals os)
      → has_code h m ≡ true
      → Configured os m s
      → Same m s (enter_of os h (some m) pc s) (enter_method os (some m) pc s)
  unfolding enter_of enter_method BusyWait.enter_method Semaphores.enter_method
      SysvSemaphore.enter_method PosixQueue.enter_method SysvQueue.enter_method
  enter_of-Same locked_header locked polling s c k = ground arith
  enter_of-Same locked_header locked claiming s c k = ground arith
  enter_of-Same locked_header test_xchg polling s c k = ground arith
  enter_of-Same locked_header test_xchg claiming s c k = ground arith
  enter_of-Same locked_header xchg pc s c k = ground arith
  enter_of-Same semaphore_header Method.mutex pc s c k = ground arith
  enter_of-Same semaphore_header sem_posix pc s c k = ground arith
  enter_of-Same semaphore_header sem_posix_named pc s c k = ground arith
  enter_of-Same sysv_header sem_sysv pc s c k = ground arith
  enter_of-Same queue_header mq_posix pc s c k = ground arith
  enter_of-Same sysv_queue_header mq_sysv pc s c k = ground arith
  enter_of-Same h m pc s c k = absurd (cc)

  abbrev pub SameLeft : Globals os → Run (Globals os) (Unit {0}) → Option (Globals os) → Type 0
  SameLeft s (done _ t) q = q ≡ some (record t { errno = s.errno })
  SameLeft s (exited c t) q = c ≡ exit_failure
  SameLeft s blocked q = q ≡ none

  leave_of-SameLeft :
      (h : Header) (m : Method) (s : Globals os)
      → has_code h m ≡ true
      → Configured os m s
      → SameLeft s (leave_of os h (some m) s) (leave_method os (some m) s)
  unfolding leave_of leave_method BusyWait.leave_method Semaphores.leave_method
      SysvSemaphore.leave_method PosixQueue.leave_method SysvQueue.leave_method
  leave_of-SameLeft locked_header locked s c k = refl
  leave_of-SameLeft locked_header test_xchg s c k = refl
  leave_of-SameLeft locked_header xchg s c k = refl
  leave_of-SameLeft semaphore_header Method.mutex s c k = ground arith
  leave_of-SameLeft semaphore_header sem_posix s c k = ground arith
  leave_of-SameLeft semaphore_header sem_posix_named s c k = ground arith
  leave_of-SameLeft sysv_header sem_sysv s c k = ground arith
  leave_of-SameLeft queue_header mq_posix s c k = ground arith
  leave_of-SameLeft sysv_queue_header mq_sysv s c k = ground arith
  leave_of-SameLeft h m s c k = absurd (cc)

  module _ (h : Header) (m : Method) (code : has_code h m ≡ true) (s : Globals os) where
    -- A step of a header's cs_enter, for a method that it has code for and that is in use with its
    -- calls set up, does what that step does in everything.h, but for the value of errno, unless the
    -- call that takes the place fails; exactly then it ends the process, with EXIT_FAILURE.
    pub cs_enter_of-Same :
        (pc : EnterPc)
        → method_of s.cs_method_used ≡ some m
        → Configured os m s
        → Same m s (cs_enter_of os h pc s) (enter_step os pc s)
    unfolding cs_enter_of enter_step
    cs_enter_of-Same pc used c = rw used (enter_of-Same h m pc s code c)

    -- A header's cs_leave, for a method that it has code for and that is in use with its calls set
    -- up, does what everything.h does, but for the value of errno, or ends the process with
    -- EXIT_FAILURE.
    pub cs_leave_of-SameLeft :
        method_of s.cs_method_used ≡ some m
        → Configured os m s
        → SameLeft s (cs_leave_of os h s) (cs_leave os s)
    unfolding cs_leave_of cs_leave
    cs_leave_of-SameLeft used c = rw used (leave_of-SameLeft h m s code c)
