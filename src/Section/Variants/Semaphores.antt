-- ===== src/Section/Variants/Semaphores.antt =====
-- mutex_sem_namedSem.h: a mutex, a POSIX semaphore and a named POSIX semaphore.
use nnos.Prelude.{
  ℕ, true, false, Option, none, some, if◌then◌else◌, Run, done, exited, Act, ◌>>=◌, ◌>>◌, skip,
  modify, exit,
}
use nnos.Prelude.Int.{ℤ}
use nnos.Kernel.{Call, Os}
use nnos.Section.{
  Method, sem_posix, sem_posix_named, method_of, EnterPc, polling, Globals, exit_failure, syscall,
  fail_on_nonzero, open_named,
}
use nnos.Section.Variants.{Entering, is_nonzero, wait_step, give_step}

module _ (os : Os) where
  -- the cases of cs_init; sem_open lacks the flag O_EXCL here
  unfoldable pub init_method : Option Method → Act (Globals os) (Unit {0})
  init_method none = exit exit_failure
  init_method (some Method.mutex) = do
    r ← syscall os Call.mutex_init
    modify (λ s. record s { errno = r })
    fail_on_nonzero os r
  init_method (some sem_posix) = do r ← syscall os (Call.sem_init 0 1); fail_on_nonzero os r
  init_method (some sem_posix_named) = do
    (λ s. open_named os (os.sem_open false 1 s.world).0 (os.sem_open false 1 s.world).1 s)
    r ← syscall os Call.sem_unlink
    skip
  init_method (some m) = skip

  unfoldable pub cs_init : ℤ → Act (Globals os) (Unit {0})
  cs_init method = do
    modify (λ s. record s { cs_method_used = method })
    init_method (method_of method)
    modify (λ s. record s { cs_var_allocated = true })

  abbrev close_named : Option ℕ → Act (Globals os) (Unit {0})
  close_named none = skip
  close_named (some h) = do
    r ← syscall os (Call.sem_close (some h))
    fail_on_nonzero os r
    modify (λ s. record s { cs_named_sem = none })

  -- the cases of cs_destroy
  unfoldable pub destroy_method : Option Method → Globals os → Run (Globals os) (Unit {0})
  destroy_method (some Method.mutex) s =
      (do
        r ← syscall os Call.mutex_destroy
        modify (λ s. record s { errno = r })
        fail_on_nonzero os r)
        s
  destroy_method (some sem_posix) s = (do r ← syscall os Call.sem_destroy; fail_on_nonzero os r) s
  destroy_method (some sem_posix_named) s = close_named s.cs_named_sem s
  destroy_method m s = done tt s

  unfoldable pub cs_destroy : Globals os → Run (Globals os) (Unit {0})
  cs_destroy s =
      if s.cs_var_allocated then destroy_method (method_of s.cs_method_used) s else done tt s

  -- if ((errno = pthread_mutex_lock(&cs_mutex))) exit(EXIT_FAILURE)
  abbrev after_lock : Globals os → Option (ℤ × os.World) → Entering os
  after_lock s none = done (some polling) s
  after_lock s (some (r, w)) =
      if is_nonzero r
      then exited exit_failure (record s { errno = r; world = w })
      else done none (record s { errno = r; world = w })

  unfoldable pub enter_method : Option Method → EnterPc → Globals os → Entering os
  enter_method (some Method.mutex) pc s = after_lock s (os.call Call.mutex_lock s.world)
  enter_method (some sem_posix) pc s = wait_step os Call.sem_wait is_nonzero s
  enter_method (some sem_posix_named) pc s =
      wait_step os (Call.named_wait s.cs_named_sem) is_nonzero s
  enter_method m pc s = done none s

  unfoldable pub leave_method : Option Method → Globals os → Run (Globals os) (Unit {0})
  leave_method (some Method.mutex) s =
      (do
        r ← syscall os Call.mutex_unlock
        modify (λ s. record s { errno = r })
        fail_on_nonzero os r)
        s
  leave_method (some sem_posix) s = give_step os Call.sem_post is_nonzero s
  leave_method (some sem_posix_named) s = give_step os (Call.named_post s.cs_named_sem) is_nonzero s
  leave_method m s = done tt s
