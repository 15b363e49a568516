-- ===== src/Section/Variants/PosixQueue.antt =====
-- messageQueue_posix.h: a POSIX message queue that holds one message while nobody is inside.
use nnos.Prelude.{
  true, false, Option, none, some, if◌then◌else◌, Run, done, Act, ◌>>=◌, ◌>>◌, skip, modify, exit,
}
use nnos.Prelude.Int.{ℤ}
use nnos.Kernel.{Call, Os}
use nnos.Section.{
  Method, mq_posix, method_of, EnterPc, Globals, exit_failure, syscall, fail_on_minus_one,
  queue_attr, message_size,
}
use nnos.Section.Variants.{Entering, is_minus_one, wait_step, give_step}

module _ (os : Os) where
  -- The cases of cs_init. The first message is sent before the name is removed.
  unfoldable pub init_method : Option Method → Act (Globals os) (Unit {0})
  init_method none = exit exit_failure
  init_method (some mq_posix) = do
    modify (λ s. record s { mq_attributes = queue_attr os })
    id ← syscall os (Call.mq_open (queue_attr os))
    modify (λ s. record s { message_queue = id })
    fail_on_minus_one os id
    r ← syscall os (Call.mq_send id message_size)
    fail_on_minus_one os r
    u ← syscall os Call.mq_unlink
    fail_on_minus_one os u
  init_method (some m) = skip

  unfoldable pub cs_init : ℤ → Act (Globals os) (Unit {0})
  cs_init method = do
    modify (λ s. record s { cs_method_used = method })
    init_method (method_of method)
    modify (λ s. record s { cs_var_allocated = true })

  -- The cases of cs_destroy. The mark goes only where the queue is closed.
  unfoldable pub destroy_method : Option Method → Globals os → Run (Globals os) (Unit {0})
  destroy_method (some mq_posix) s =
      (do
        r ← syscall os (Call.mq_close s.message_queue)
        modify (λ s. if is_minus_one r then s else record s { cs_var_allocated = false }))
        s
  destroy_method m s = done tt s

  unfoldable pub cs_destroy : Globals os → Run (Globals os) (Unit {0})
  cs_destroy s =
      if s.cs_var_allocated then destroy_method (method_of s.cs_method_used) s else done tt s

  unfoldable pub enter_method : Option Method → EnterPc → Globals os → Entering os
  enter_method (some mq_posix) pc s =
      wait_step os (Call.mq_receive s.message_queue message_size) is_minus_one s
  enter_method m pc s = done none s

  unfoldable pub leave_method : Option Method → Globals os → Run (Globals os) (Unit {0})
  leave_method (some mq_posix) s =
      give_step os (Call.mq_send s.message_queue message_size) is_minus_one s
  leave_method m s = done tt s
