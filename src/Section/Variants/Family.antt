-- ===== src/Section/Variants/Family.antt =====
-- The five headers side by side.
use nnos.Prelude.{Bool, true, false, Option, Run, Act}
use nnos.Prelude.Int.{ℤ}
use nnos.Kernel.{Os}
use nnos.Section.{
  Method, locked, xchg, test_xchg, sem_posix, sem_posix_named, sem_sysv, mq_posix, mq_sysv,
  method_of, EnterPc, Globals,
}
use nnos.Section.Variants.{Entering}
use nnos.Section.Variants.BusyWait
use nnos.Section.Variants.Semaphores
use nnos.Section.Variants.SysvSemaphore
use nnos.Section.Variants.PosixQueue
use nnos.Section.Variants.SysvQueue

pub data Header : Type 0 where
  locked_header semaphore_header sysv_header queue_header sysv_queue_header : Header

-- the methods for which a header has code
abbrev pub has_code : Header → Method → Bool
has_code locked_header locked = true
has_code locked_header test_xchg = true
has_code locked_header xchg = true
has_code semaphore_header Method.mutex = true
has_code semaphore_header sem_posix = true
has_code semaphore_header sem_posix_named = true
has_code sysv_header sem_sysv = true
has_code queue_header mq_posix = true
has_code sysv_queue_header mq_sysv = true
has_code _ _ = false

module _ (os : Os) where
  unfoldable pub init_of : Header → Option Method → Act (Globals os) (Unit {0})
  init_of locked_header m = BusyWait.init_method os m
  init_of semaphore_header m = Semaphores.init_method os m
  init_of sysv_header m = SysvSemaphore.init_method os m
  init_of queue_header m = PosixQueue.init_method os m
  init_of sysv_queue_header m = SysvQueue.init_method os m

  unfoldable pub cs_init_of : Header → ℤ → Act (Globals os) (Unit {0})
  cs_init_of locked_header n = BusyWait.cs_init os n
  cs_init_of semaphore_header n = Semaphores.cs_init os n
  cs_init_of sysv_header n = SysvSemaphore.cs_init os n
  cs_init_of queue_header n = PosixQueue.cs_init os n
  cs_init_of sysv_queue_header n = SysvQueue.cs_init os n

  unfoldable pub cs_destroy_of : Header → Globals os → Run (Globals os) (Unit {0})
  cs_destroy_of locked_header s = BusyWait.cs_destroy os s
  cs_destroy_of semaphore_header s = Semaphores.cs_destroy os s
  cs_destroy_of sysv_header s = SysvSemaphore.cs_destroy os s
  cs_destroy_of queue_header s = PosixQueue.cs_destroy os s
  cs_destroy_of sysv_queue_header s = SysvQueue.cs_destroy os s

  unfoldable pub enter_of : Header → Option Method → EnterPc → Globals os → Entering os
  enter_of locked_header m pc s = BusyWait.enter_method os m pc s
  enter_of semaphore_header m pc s = Semaphores.enter_method os m pc s
  enter_of sysv_header m pc s = SysvSemaphore.enter_method os m pc s
  enter_of queue_header m pc s = PosixQueue.enter_method os m pc s
  enter_of sysv_queue_header m pc s = SysvQueue.enter_method os m pc s

  -- one step of cs_enter
  unfoldable pub cs_enter_of : Header → EnterPc → Globals os → Entering os
  cs_enter_of h pc s = enter_of h (method_of s.cs_method_used) pc s

  unfoldable pub leave_of : Header → Option Method → Globals os → Run (Globals os) (Unit {0})
  leave_of locked_header m s = BusyWait.leave_method os m s
  leave_of semaphore_header m s = Semaphores.leave_method os m s
  leave_of sysv_header m s = SysvSemaphore.leave_method os m s
  leave_of queue_header m s = PosixQueue.leave_method os m s
  leave_of sysv_queue_header m s = SysvQueue.leave_method os m s

  unfoldable pub cs_leave_of : Header → Globals os → Run (Globals os) (Unit {0})
  cs_leave_of h s = leave_of h (method_of s.cs_method_used) s
