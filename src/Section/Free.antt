-- ===== src/Section/Free.antt =====
-- The state of the lock behind the ten methods: how many threads it lets in.
use nnos.Prelude.{ℕ, ◌≡◌, some, if◌then◌else◌}
use nnos.Kernel.{Os, Contract, Object, mutex, sem, named, sysv, queue, msgs}
use nnos.Section.{
  Method, atomic, locked, xchg, test_xchg, sem_posix, sem_posix_named, sem_sysv, mq_posix, mq_sysv,
  method_of, Globals, enter_buf, leave_buf,
}

-- the methods that admit one thread at a time
abbrev pub Protects : Method → Type 0
Protects atomic = ⊥
Protects locked = ⊥
Protects _ = Unit

module _ (os : Os) where
  -- what the other globals must hold for the calls of a method
  abbrev pub Configured : Method → Globals os → Type 0
  Configured sem_sysv s = (s.sem_op_enter ≡ enter_buf os) × (s.sem_op_leave ≡ leave_buf os)
  Configured _ s = Unit

module _ (os : Os) (law : Contract os) where
  -- the object of the methods that call the operating system
  abbrev pub object : Globals os → Method → Object
  object s sem_posix = sem
  object s sem_posix_named = named s.cs_named_sem
  object s sem_sysv = sysv s.sysv_semid
  object s mq_posix = queue s.message_queue
  object s mq_sysv = msgs s.mq_sysv
  object s _ = mutex

  -- the number of threads that may still enter
  abbrev pub free_of : Method → Globals os → ℕ
  free_of atomic s = 0
  free_of locked s = if s.locked then 0 else 1
  free_of test_xchg s = if s.locked then 0 else 1
  free_of xchg s = if s.locked_atomic then 0 else 1
  free_of m s = law.units (object s m) s.world

  -- a method is in use, and its calls are set up
  pub record IsReady (m : Method) (s : Globals os) : Type 0 where
    pub used : method_of s.cs_method_used ≡ some m
    pub configured : Configured os m s
