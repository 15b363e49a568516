-- ===== src/Section/Variants/Opens.antt =====
-- What cs_init of the five headers leaves behind.
use nnos.Prelude.{
  ◌≡◌, ◌≢◌, true, false, Option, some, inl, inr, refl, arith, done, Option-cases, Bool-cases,
  Run-cases, Act, ◌>>◌, modify, ◌∙◌, ap,
}
use nnos.Prelude.Int.{ℤ, pos, negsuc, eqb_ℤ}
use nnos.Kernel.{Os, Contract, Call, queue, msgs}
use nnos.Section.{
  Method, atomic, locked, xchg, test_xchg, sem_posix, sem_posix_named, sem_sysv, mq_posix, mq_sysv,
  method_of, Globals, queue_attr, message_size,
}
use nnos.Section.Free.{Protects, free_of}
use nnos.Section.Variants.BusyWait
use nnos.Section.Variants.Semaphores
use nnos.Section.Variants.SysvSemaphore
use nnos.Section.Variants.PosixQueue
use nnos.Section.Variants.SysvQueue
use nnos.Section.Variants.Family.{
  Header, locked_header, semaphore_header, sysv_header, queue_header, sysv_queue_header, has_code,
  init_of, cs_init_of,
}

module _ (os : Os) (law : Contract os) where
  init_of-opens :
      (h : Header) (m : Method) (s t : Globals os)
      → has_code h m ≡ true
      → Protects m
      → m ≢ sem_posix_named
      → init_of os h (some m) s ≡ done tt t
      → free_of os law m t ≡ 1
  unfolding init_of BusyWait.init_method Semaphores.init_method SysvSemaphore.init_method
      PosixQueue.init_method SysvQueue.init_method
  init_of-opens locked_header locked s t c p ne h = absurd p
  init_of-opens locked_header test_xchg s t c p ne h = ground arith
  init_of-opens locked_header xchg s t c p ne h = ground arith
  init_of-opens semaphore_header Method.mutex s t c p ne h =
      elim (Option-cases (os.call Call.mutex_init s.world)) [
        | inl e ↦ ground arith
        | inr (rv, e) ↦ ground (arith, law.mutex_init_units s.world rv.1)
      ]
  init_of-opens semaphore_header sem_posix s t c p ne h =
      elim (Option-cases (os.call (Call.sem_init 0 1) s.world)) [
        | inl e ↦ ground arith
        | inr (rv, e) ↦ ground (arith, law.sem_init_units 1 s.world rv.1)
      ]
  init_of-opens semaphore_header sem_posix_named s t c p ne h = absurd (ne refl)
  init_of-opens sysv_header sem_sysv s t c p ne h =
      elim (Option-cases (os.call (Call.semget false 1) s.world)) [
        | inl e ↦ ground arith
        | inr (iw, e) ↦ elim (Option-cases (os.call (Call.semctl_setval iw.0 0 1) iw.1)) [
          | inl d ↦ ground arith
          | inr (rv, d) ↦ ground (arith, law.setval_units iw.0 1 rv.0 iw.1 rv.1)
        ]
      ]
  init_of-opens queue_header mq_posix s t c p ne h =
      elim (Option-cases (os.call (Call.mq_open (queue_attr os)) s.world)) [
        | inl e ↦ ground arith
        | inr (iw, e) ↦ elim (Bool-cases (eqb_ℤ iw.0 (negsuc 0))) [
          | inl bad ↦ ground arith
          | inr good ↦
              let (r, v, d, one) =
                law.give_one (Call.mq_send iw.0 message_size) (queue iw.0) iw.1 refl
                  (law.mq_open_units (queue_attr os) iw.0 s.world iw.1 e good) in
              elim (Option-cases (os.call Call.mq_unlink v)) [
                | inl u ↦ ground arith
                | inr (uw, u) ↦ ground (arith, law.mq_unlink_units iw.0 uw.0 v uw.1 u)
              ]
        ]
      ]
  init_of-opens sysv_queue_header mq_sysv s t c p ne h =
      elim (Option-cases (os.call Call.msgget s.world)) [
        | inl e ↦ ground arith
        | inr (iw, e) ↦ elim (Bool-cases (eqb_ℤ iw.0 (negsuc 0))) [
          | inl bad ↦ ground arith
          | inr good ↦
              let (r, v, d, one) =
                law.give_one (Call.msgsnd iw.0 (pos 1)) (msgs iw.0) iw.1 refl
                  (law.msgget_units iw.0 s.world iw.1 e good) in
              ground arith
        ]
      ]
  init_of-opens h m s t c p ne e = absurd (cc)

  marked :
      (init : Act (Globals os) (Unit {0})) (s t : Globals os)
      → (init >> modify (λ u. record u { cs_var_allocated = true })) s ≡ done tt t
      → (u : Globals os) × (init s ≡ done tt u) × (t ≡ record u { cs_var_allocated = true })
  marked init s t h = elim (Run-cases (init s)) [
    | inl (a, u, e) ↦ (u, e, ground arith)
    | inr (inl (c, u, e)) ↦ absurd (ground arith)
    | inr (inr e) ↦ absurd (ground arith)
  ]

  -- what is left of a cs_init that returns
  cs_init_of-done :
      (h : Header) (n : ℤ) (s t : Globals os)
      → cs_init_of os h n s ≡ done tt t
      → (u : Globals os) × (init_of os h (method_of n) (record s { cs_method_used = n })
          ≡ done tt u)
        × (t ≡ record u { cs_var_allocated = true })
  unfolding cs_init_of init_of BusyWait.cs_init Semaphores.cs_init SysvSemaphore.cs_init
      PosixQueue.cs_init SysvQueue.cs_init
  cs_init_of-done locked_header n s t h =
      marked (init_of os locked_header (method_of n)) (record s { cs_method_used = n }) t h
  cs_init_of-done semaphore_header n s t h =
      marked (init_of os semaphore_header (method_of n)) (record s { cs_method_used = n }) t h
  cs_init_of-done sysv_header n s t h =
      marked (init_of os sysv_header (method_of n)) (record s { cs_method_used = n }) t h
  cs_init_of-done queue_header n s t h =
      marked (init_of os queue_header (method_of n)) (record s { cs_method_used = n }) t h
  cs_init_of-done sysv_queue_header n s t h =
      marked (init_of os sysv_queue_header (method_of n)) (record s { cs_method_used = n }) t h

  method_used-init_of :
      (h : Header) (m : Option Method) (s t : Globals os)
      → init_of os h m s ≡ done tt t
      → t.cs_method_used ≡ s.cs_method_used
  unfolding init_of BusyWait.init_method Semaphores.init_method SysvSemaphore.init_method
      PosixQueue.init_method SysvQueue.init_method
  method_used-init_of locked_header m s t e = ground arith
  method_used-init_of semaphore_header m s t e = ground arith
  method_used-init_of sysv_header m s t e = ground arith
  method_used-init_of queue_header m s t e = ground arith
  method_used-init_of sysv_queue_header m s t e = ground arith

  free-mark :
      (m : Method) (u : Globals os)
      → free_of os law m (record u { cs_var_allocated = true }) ≡ free_of os law m u
  free-mark atomic u = refl
  free-mark _ u = refl

  -- When a header's cs_init returns for a method that protects, that the header has code for and
  -- that is not the named semaphore, the method is in use, exactly one thread may enter, and the
  -- resources are marked for cs_destroy.
  pub cs_init_of-opens :
      (h : Header) (m : Method) (n : ℤ) (s t : Globals os)
      → method_of n ≡ some m
      → has_code h m ≡ true
      → Protects m
      → m ≢ sem_posix_named
      → cs_init_of os h n s ≡ done tt t
      → (free_of os law m t ≡ 1)
        × (method_of t.cs_method_used ≡ some m)
        × (t.cs_var_allocated ≡ true)
  cs_init_of-opens h m n s t d c p ne e =
      let (u, i, q) = cs_init_of-done h n s t e in
      let i' : init_of os h (some m) (record s { cs_method_used = n }) ≡ done tt u = rw d at i in
      let used : u.cs_method_used ≡ n = method_used-init_of h (some m) _ u i' in
      rw q (free-mark m u ∙ init_of-opens h m _ u c p ne i', ap method_of used ∙ d, refl)
