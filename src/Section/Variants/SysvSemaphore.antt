-- ===== src/Section/Variants/SysvSemaphore.antt =====
-- sem_sysv.h: a System V semaphore, which has a key and can be there already. The `sembuf` of
-- cs_enter and that of cs_leave are local variables here.
use nnos.Prelude.{
  true, false, Option, none, some, if◌then◌else◌, Run, done, Act, ◌>>=◌, ◌>>◌, skip, modify, exit,
}
use nnos.Prelude.Int.{ℤ}
use nnos.Kernel.{Call, Os}
use nnos.Section.{
  Method, sem_sysv, method_of, EnterPc, Globals, exit_failure, syscall, fail_on_minus_one,
  enter_buf, leave_buf,
}
use nnos.Section.Variants.{Entering, is_minus_one, wait_step, give_step}

module _ (os : Os) where
  -- the cases of cs_init
  unfoldable pub init_method : Option Method → Act (Globals os) (Unit {0})
  init_method none = exit exit_failure
  init_method (some sem_sysv) = do
    id ← syscall os (Call.semget false 1)
    modify (λ s. record s { sysv_semid = id })
    fail_on_minus_one os id
    r ← syscall os (Call.semctl_setval id 0 1)
    fail_on_minus_one os r
  init_method (some m) = skip

  unfoldable pub cs_init : ℤ → Act (Globals os) (Unit {0})
  cs_init method = do
    modify (λ s. record s { cs_method_used = method })
    init_method (method_of method)
    modify (λ s. record s { cs_var_allocated = true })

  -- the cases of cs_destroy
  unfoldable pub destroy_method : Option Method → Globals os → Run (Globals os) (Unit {0})
  destroy_method (some sem_sysv) s =
      (do r ← syscall os (Call.semctl_rmid s.sysv_semid 0); fail_on_minus_one os r) s
  destroy_method m s = done tt s

  unfoldable pub cs_destroy : Globals os → Run (Globals os) (Unit {0})
  cs_destroy s =
      if s.cs_var_allocated then destroy_method (method_of s.cs_method_used) s else done tt s

  unfoldable pub enter_method : Option Method → EnterPc → Globals os → Entering os
  enter_method (some sem_sysv) pc s =
      wait_step os (Call.semop s.sysv_semid (enter_buf os)) is_minus_one s
  enter_method m pc s = done none s

  unfoldable pub leave_method : Option Method → Globals os → Run (Globals os) (Unit {0})
  leave_method (some sem_sysv) s =
      give_step os (Call.semop s.sysv_semid (leave_buf os)) is_minus_one s
  leave_method m s = done tt s
