-- ===== src/Section/Access.antt =====
-- everything.h: cs_enter and cs_leave.
use nnos.Prelude.{ℕ, zero, suc, true, false, Option, none, some, if◌then◌else◌}
use nnos.Prelude.Int.{ℤ}
use nnos.Kernel.{Call, Os}
use nnos.Section.{
  Method, atomic, locked, xchg, test_xchg, sem_posix, sem_posix_named, sem_sysv, mq_posix, mq_sysv,
  method_of, message_size, EnterPc, polling, claiming, Globals,
}

module _ (os : Os) where
  -- One step of cs_enter: `some pc` while the thread is still inside it, `none` when it returns.
  abbrev pub Progress : Type 0
  Progress = Option EnterPc × Globals os

  -- a blocking call, whose error is not checked
  abbrev call_step : Globals os → Option (ℤ × os.World) → Progress
  call_step s none = (some polling, s)
  call_step s (some (r, w)) = (none, record s { world = w })

  abbrev pub lock_call : Globals os → Method → Call
  lock_call s sem_posix = Call.sem_wait
  lock_call s sem_posix_named = Call.named_wait s.cs_named_sem
  lock_call s sem_sysv = Call.semop s.sysv_semid s.sem_op_enter
  lock_call s mq_posix = Call.mq_receive s.message_queue message_size
  lock_call s mq_sysv = Call.msgrcv s.mq_sysv 0
  lock_call s _ = Call.mutex_lock

  -- the cases of cs_enter
  unfoldable pub enter_method : Option Method → EnterPc → Globals os → Progress
  enter_method none pc s = (none, s)
  enter_method (some atomic) pc s = (none, s)
  -- while (locked) ; locked = true;
  enter_method (some locked) polling s = (some (if s.locked then polling else claiming), s)
  enter_method (some locked) claiming s = (none, record s { locked = true })
  -- while (load(&locked) || exchange(&locked, true)) ;
  enter_method (some test_xchg) polling s = (some (if s.locked then polling else claiming), s)
  enter_method (some test_xchg) claiming s =
      (if s.locked then some polling else none, record s { locked = true })
  -- while (test_and_set(&locked_atomic)) ;
  enter_method (some xchg) pc s =
      (if s.locked_atomic then some polling else none, record s { locked_atomic = true })
  enter_method (some m) pc s = call_step s (os.call (lock_call s m) s.world)

  unfoldable pub enter_step : EnterPc → Globals os → Progress
  enter_step pc s = enter_method (method_of s.cs_method_used) pc s

  -- The whole of cs_enter, when no other thread runs; `none` when it has not returned after
  -- `fuel` steps.
  pub cs_enter_from : ℕ → EnterPc → Globals os → Option (Globals os)
  unfolding enter_step enter_method
  cs_enter_from zero pc s = none
  cs_enter_from (suc fuel) pc s =
      let (p, t) = enter_step pc s in elim p [ none ↦ some t | some pc' ↦ cs_enter_from fuel pc' t ]

  pub cs_enter : ℕ → Globals os → Option (Globals os)
  unfolding cs_enter_from
  cs_enter fuel s = cs_enter_from fuel polling s

  abbrev give_step : Globals os → Option (ℤ × os.World) → Option (Globals os)
  give_step s none = none
  give_step s (some (r, w)) = some (record s { world = w })

  abbrev pub unlock_call : Globals os → Method → Call
  unlock_call s sem_posix = Call.sem_post
  unlock_call s sem_posix_named = Call.named_post s.cs_named_sem
  unlock_call s sem_sysv = Call.semop s.sysv_semid s.sem_op_leave
  unlock_call s mq_posix = Call.mq_send s.message_queue message_size
  unlock_call s mq_sysv = Call.msgsnd s.mq_sysv s.msg_type
  unlock_call s _ = Call.mutex_unlock

  -- the cases of cs_leave; `none` while the call blocks
  unfoldable pub leave_method : Option Method → Globals os → Option (Globals os)
  leave_method none s = some s
  leave_method (some atomic) s = some s
  leave_method (some locked) s = some (record s { locked = false })
  leave_method (some test_xchg) s = some (record s { locked = false })
  leave_method (some xchg) s = some (record s { locked_atomic = false })
  leave_method (some m) s = give_step s (os.call (unlock_call s m) s.world)

  unfoldable pub cs_leave : Globals os → Option (Globals os)
  cs_leave s = leave_method (method_of s.cs_method_used) s
