-- ===== src/Section/Variants/SysvQueue.antt =====
-- messageQueue_sysV.h: a System V message queue that holds one message while nobody is inside.
use nnos.Prelude.{
  true, false, Option, none, some, if◌then◌else◌, Run, done, Act, ◌>>=◌, ◌>>◌, skip, modify, exit,
}
use nnos.Prelude.Int.{ℤ, pos}
use nnos.Kernel.{Call, Os}
use nnos.Section.{
  Method, mq_sysv, method_of, EnterPc, Globals, exit_failure, syscall, fail_on_minus_one,
}
use nnos.Section.Variants.{Entering, is_minus_one, wait_step, give_step}

module _ (os : Os) where
  -- the cases of cs_init
  unfoldable pub init_method : Option Method → Act (Globals os) (Unit {0})
  init_method none = exit exit_failure
  init_method (some mq_sysv) = do
    modify (λ s. record s { msg_type = pos 1 })
    id ← syscall os Call.msgget
    modify (λ s. record s { mq_sysv = id })
    fail_on_minus_one os id
    r ← syscall os (Call.msgsnd id (pos 1))
    fail_on_minus_one os r
  init_method (some m) = skip

  unfoldable pub cs_init : ℤ → Act (Globals os) (Unit {0})
  cs_init method = do
    modify (λ s. record s { cs_method_used = method })
    init_method (method_of method)
    modify (λ s. record s { cs_var_allocated = true })

  -- The cases of cs_destroy. The mark goes only where the queue is removed.
  unfoldable pub destroy_method : Option Method → Globals os → Run (Globals os) (Unit {0})
  destroy_method (some mq_sysv) s =
      (do
        r ← syscall os (Call.msgctl_rmid s.mq_sysv)
        modify (λ s. if is_minus_one r then s else record s { cs_var_allocated = false }))
        s
  destroy_method m s = done tt s

  unfoldable pub cs_destroy : Globals os → Run (Globals os) (Unit {0})
  cs_destroy s =
      if s.cs_var_allocated then destroy_method (method_of s.cs_method_used) s else done tt s

  unfoldable pub enter_method : Option Method → EnterPc → Globals os → Entering os
  enter_method (some mq_sysv) pc s = wait_step os (Call.msgrcv s.mq_sysv 0) is_minus_one s
  enter_method m pc s = done none s

  unfoldable pub leave_method : Option Method → Globals os → Run (Globals os) (Unit {0})
  leave_method (some mq_sysv) s = give_step os (Call.msgsnd s.mq_sysv s.msg_type) is_minus_one s
  leave_method m s = done tt s
