-- ===== src/Section.antt =====
-- everything.h: access to a critical section by one of ten methods. The globals are the record
-- `Cs`; the calls of the operating system go to an `Os`. cs_enter runs a step at a time, one step
-- for each access to shared memory, because other threads run between two steps.
-- perror and fprintf change no state and are left out; sched_yield only lets others run, which an
-- interleaving always may. The text of a message is the same in every message and never read.
pub mod Access
pub mod Free
pub mod Lock
pub mod Exits
pub mod AsLock
pub mod Init
pub mod Example
pub mod Variants
mod Tests
use nnos.Prelude.{
  ℕ, zero, suc, Bool, true, false, not, Option, none, some, if◌then◌else◌, Run, done, exited,
  blocked, Act, ◌>>=◌, ◌>>◌, skip, modify, exit, when,
}
use nnos.Prelude.Int.{ℤ, pos, negsuc, eqb_ℤ}
use nnos.Kernel.{Sembuf, MqAttr, Call, Os}

-- CS_METHOD_ATOMIC … CS_METHOD_MQ_SYSV
pub data Method : Type 0 where
  atomic locked xchg test_xchg mutex sem_posix sem_posix_named sem_sysv mq_posix mq_sysv : Method

-- `switch (cs_method_used)`: `none` is the default label
abbrev pub method_of : ℤ → Option Method
method_of (pos zero) = some atomic
method_of (pos (suc zero)) = some locked
method_of (pos (suc (suc zero))) = some xchg
method_of (pos (suc (suc (suc zero)))) = some test_xchg
method_of (pos (suc (suc (suc (suc zero))))) = some mutex
method_of (pos (suc (suc (suc (suc (suc zero)))))) = some sem_posix
method_of (pos (suc (suc (suc (suc (suc (suc zero))))))) = some sem_posix_named
method_of (pos (suc (suc (suc (suc (suc (suc (suc zero)))))))) = some sem_sysv
method_of (pos (suc (suc (suc (suc (suc (suc (suc (suc zero))))))))) = some mq_posix
method_of (pos (suc (suc (suc (suc (suc (suc (suc (suc (suc zero)))))))))) = some mq_sysv
method_of _ = none

-- The global variables, with the state of the operating system as `world`.
pub record Cs (W : Type 0) : Type 0 where
  pub locked : Bool
  pub locked_atomic : Bool
  pub cs_named_sem : Option ℕ  -- `none` is SEM_FAILED
  pub sem_op_enter : Sembuf
  pub sem_op_leave : Sembuf
  pub sysv_semid : ℤ
  pub message_queue : ℤ
  pub mq_attributes : MqAttr
  pub mq_sysv : ℤ
  pub msg_type : ℤ
  pub cs_method_used : ℤ
  pub cs_var_allocated : Bool
  pub errno : ℤ
  pub world : W

abbrev pub message_size : ℕ
message_size = 10

abbrev pub exit_failure : ℕ
exit_failure = 1

-- where a thread stands inside cs_enter: at the test of the waiting loop, or past it
pub data EnterPc : Type 0 where
  polling claiming : EnterPc

module _ (os : Os) where
  abbrev pub Globals : Type 0
  Globals = Cs os.World

  abbrev Eff : Type 0 → Type 0
  Eff = Act Globals

  -- a call, with the reply
  abbrev syscall_reply : Globals → Option (ℤ × os.World) → Run Globals ℤ
  syscall_reply s none = blocked
  syscall_reply s (some (r, w)) = done r (record s { world = w })

  abbrev syscall : Call → Eff ℤ
  syscall c s = syscall_reply s (os.call c s.world)

  -- `if (r == -1) exit(EXIT_FAILURE)`
  abbrev fail_on_minus_one : ℤ → Eff (Unit {0})
  fail_on_minus_one r = when (eqb_ℤ r (negsuc 0)) (exit exit_failure)

  -- `if (r) exit(EXIT_FAILURE)`
  abbrev fail_on_nonzero : ℤ → Eff (Unit {0})
  fail_on_nonzero r = when (not (eqb_ℤ r (pos 0))) (exit exit_failure)

  abbrev open_named : Option ℕ → os.World → Eff (Unit {0})
  open_named none w s = exited exit_failure (record s { cs_named_sem = none; world = w })
  open_named (some h) w s = done tt (record s { cs_named_sem = some h; world = w })

  abbrev enter_buf : Sembuf
  enter_buf = record { sem_num = 0; sem_op = negsuc 0 }

  abbrev leave_buf : Sembuf
  leave_buf = record { sem_num = 0; sem_op = pos 1 }

  abbrev queue_attr : MqAttr
  queue_attr = record { mq_flags = 0; mq_maxmsg = 1; mq_msgsize = message_size; mq_curmsgs = 0 }

  -- the cases of cs_init
  unfoldable pub init_method : Option Method → Eff (Unit {0})
  init_method none = exit exit_failure
  init_method (some atomic) = skip
  init_method (some locked) = modify (λ s. record s { locked = false })
  init_method (some test_xchg) = modify (λ s. record s { locked = false })
  init_method (some xchg) = modify (λ s. record s { locked_atomic = false })
  init_method (some mutex) = do
    r ← syscall Call.mutex_init
    modify (λ s. record s { errno = r })
    fail_on_nonzero r
  init_method (some sem_posix) = do r ← syscall (Call.sem_init 0 1); fail_on_nonzero r
  init_method (some sem_posix_named) = do
    (λ s. open_named (os.sem_open true 1 s.world).0 (os.sem_open true 1 s.world).1 s)
    r ← syscall Call.sem_unlink
    skip
  init_method (some sem_sysv) = do
    modify (λ s. record s { sem_op_enter = enter_buf; sem_op_leave = leave_buf })
    id ← syscall (Call.semget true 1)
    modify (λ s. record s { sysv_semid = id })
    fail_on_minus_one id
    r ← syscall (Call.semctl_setval id 0 1)
    fail_on_minus_one r
  init_method (some mq_posix) = do
    modify (λ s. record s { mq_attributes = queue_attr })
    id ← syscall (Call.mq_open queue_attr)
    modify (λ s. record s { message_queue = id })
    fail_on_minus_one id
    u ← syscall Call.mq_unlink
    fail_on_minus_one u
    r ← syscall (Call.mq_send id message_size)
    fail_on_minus_one r
  init_method (some mq_sysv) = do
    modify (λ s. record s { msg_type = pos 1 })
    id ← syscall Call.msgget
    modify (λ s. record s { mq_sysv = id })
    fail_on_minus_one id
    r ← syscall (Call.msgsnd id (pos 1))
    fail_on_minus_one r

  unfoldable pub cs_init : ℤ → Eff (Unit {0})
  cs_init method = do
    modify (λ s. record s { cs_method_used = method })
    init_method (method_of method)
    modify (λ s. record s { cs_var_allocated = true })

  -- a call of cs_destroy whose failure is only reported
  abbrev release : Call → Eff (Unit {0})
  release c = do r ← syscall c; skip

  close_named : Option ℕ → Eff (Unit {0})
  close_named none = skip
  close_named (some h) = do
    release (Call.sem_close (some h))
    modify (λ s. record s { cs_named_sem = none })

  -- the cases of cs_destroy
  pub destroy_method : Option Method → Globals → Run Globals (Unit {0})
  unfolding close_named
  destroy_method (some mutex) s =
      (do r ← syscall Call.mutex_destroy; modify (λ s. record s { errno = r })) s
  destroy_method (some sem_posix) s = release Call.sem_destroy s
  destroy_method (some sem_posix_named) s = close_named s.cs_named_sem s
  destroy_method (some sem_sysv) s = release (Call.semctl_rmid s.sysv_semid 0) s
  destroy_method (some mq_posix) s = release (Call.mq_close s.message_queue) s
  destroy_method (some mq_sysv) s = release (Call.msgctl_rmid s.mq_sysv) s
  destroy_method _ s = done tt s

  pub cs_destroy : Globals → Run Globals (Unit {0})
  cs_destroy s =
      if s.cs_var_allocated
      then (do
        destroy_method (method_of s.cs_method_used)
        modify (λ s. record s { cs_var_allocated = false }))
          s
      else done tt s
