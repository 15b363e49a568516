-- ===== src/Section/Init.antt =====
-- What cs_init leaves behind.
use nnos.Prelude.{
  ◌≡◌, inl, inr, refl, true, Option, none, some, Bool-cases, arith, done, Option-cases, ◌∙◌, ap,
}
use nnos.Prelude.Int.{ℤ, pos, negsuc, eqb_ℤ}
use nnos.Kernel.{Os, Contract, Call, queue, msgs}
use nnos.Section.{
  Method, atomic, locked, xchg, test_xchg, sem_posix, sem_posix_named, sem_sysv, mq_posix, mq_sysv,
  method_of, Globals, init_method, cs_init, queue_attr, message_size,
}
use nnos.Section.Exits.{init-done}
use nnos.Section.Free.{Protects, free_of, Configured, IsReady}

module _ (os : Os) (law : Contract os) where
  init_mutex :
      (s t : Globals os)
      → init_method os (some Method.mutex) s ≡ done tt t
      → free_of os law Method.mutex t ≡ 1
  unfolding init_method
  init_mutex s t h = elim (Option-cases (os.call Call.mutex_init s.world)) [
    | inl e ↦ ground arith
    | inr (rv, e) ↦ ground (arith, law.mutex_init_units s.world rv.1)
  ]

  init_sem :
      (s t : Globals os)
      → init_method os (some sem_posix) s ≡ done tt t
      → free_of os law sem_posix t ≡ 1
  unfolding init_method
  init_sem s t h = elim (Option-cases (os.call (Call.sem_init 0 1) s.world)) [
    | inl e ↦ ground arith
    | inr (rv, e) ↦ ground (arith, law.sem_init_units 1 s.world rv.1)
  ]

  init_named :
      (s t : Globals os)
      → init_method os (some sem_posix_named) s ≡ done tt t
      → free_of os law sem_posix_named t ≡ 1
  unfolding init_method
  init_named s t h = elim (Option-cases (os.sem_open true 1 s.world).0) [
    | inl e ↦ ground arith
    | inr (hd, e) ↦ elim (Option-cases (os.call Call.sem_unlink (os.sem_open true 1 s.world).1)) [
      | inl d ↦ ground arith
      | inr (rv, d) ↦ ground (
        arith,
        law.sem_open_units 1 hd s.world,
        law.sem_unlink_units (some hd) rv.0 (os.sem_open true 1 s.world).1 rv.1,
      )
    ]
  ]

  init_sysv :
      (s t : Globals os)
      → init_method os (some sem_sysv) s ≡ done tt t
      → (free_of os law sem_sysv t ≡ 1) × Configured os sem_sysv t
  unfolding init_method
  init_sysv s t h = elim (Option-cases (os.call (Call.semget true 1) s.world)) [
    | inl e ↦ ground arith
    | inr (iw, e) ↦ elim (Option-cases (os.call (Call.semctl_setval iw.0 0 1) iw.1)) [
      | inl d ↦ ground arith
      | inr (rv, d) ↦ ground (arith, law.setval_units iw.0 1 rv.0 iw.1 rv.1)
    ]
  ]

  init_msgs :
      (s t : Globals os)
      → init_method os (some mq_sysv) s ≡ done tt t
      → free_of os law mq_sysv t ≡ 1
  unfolding init_method
  init_msgs s t h = elim (Option-cases (os.call Call.msgget s.world)) [
    | inl e ↦ ground arith
    | inr (iw, e) ↦ elim (Bool-cases (eqb_ℤ iw.0 (negsuc 0))) [
      | inl bad ↦ ground arith
      | inr good ↦
          let (r, v, d, one) =
            law.give_one (Call.msgsnd iw.0 (pos 1)) (msgs iw.0) iw.1 refl
              (law.msgget_units iw.0 s.world iw.1 e good) in
          ground arith
    ]
  ]

  init_queue :
      (s t : Globals os)
      → init_method os (some mq_posix) s ≡ done tt t
      → free_of os law mq_posix t ≡ 1
  unfolding init_method
  init_queue s t h = elim (Option-cases (os.call (Call.mq_open (queue_attr os)) s.world)) [
    | inl e ↦ ground arith
    | inr (iw, e) ↦ elim (Bool-cases (eqb_ℤ iw.0 (negsuc 0))) [
      | inl bad ↦ ground arith
      | inr good ↦ elim (Option-cases (os.call Call.mq_unlink iw.1)) [
        | inl d ↦ ground arith
        | inr (uv, d) ↦
            let (r, v, c, one) =
              law.give_one (Call.mq_send iw.0 message_size) (queue iw.0) uv.1 refl (
                law.mq_unlink_units iw.0 uv.0 iw.1 uv.1 d
                ∙ law.mq_open_units (queue_attr os) iw.0 s.world iw.1 e good) in
            ground arith
      ]
    ]
  ]

  init_method-opens :
      (m : Method) (s t : Globals os)
      → Protects m
      → init_method os (some m) s ≡ done tt t
      → (free_of os law m t ≡ 1) × Configured os m t
  init_method-opens atomic s t p h = absurd p
  init_method-opens locked s t p h = absurd p
  init_method-opens xchg s t p h = unfold init_method in ground arith
  init_method-opens test_xchg s t p h = unfold init_method in ground arith
  init_method-opens Method.mutex s t p h = (init_mutex s t h, tt)
  init_method-opens sem_posix s t p h = (init_sem s t h, tt)
  init_method-opens sem_posix_named s t p h = (init_named s t h, tt)
  init_method-opens sem_sysv s t p h = init_sysv s t h
  init_method-opens mq_posix s t p h = (init_queue s t h, tt)
  init_method-opens mq_sysv s t p h = (init_msgs s t h, tt)

  method_used-init :
      (m : Option Method) (s t : Globals os)
      → init_method os m s ≡ done tt t
      → t.cs_method_used ≡ s.cs_method_used
  unfolding init_method
  method_used-init none s t h = cc
  method_used-init (some atomic) s t h = ground arith
  method_used-init (some m) s t h = ground arith

  free-mark :
      (m : Method) (u : Globals os)
      → free_of os law m (record u { cs_var_allocated = true }) ≡ free_of os law m u
  free-mark atomic u = refl
  free-mark _ u = refl

  Configured-mark :
      (m : Method) (u : Globals os)
      → Configured os m u
      → Configured os m (record u { cs_var_allocated = true })
  Configured-mark atomic u c = c
  Configured-mark _ u c = c

  -- When cs_init returns for a method that protects, the method is in use with its calls set up,
  -- exactly one thread may enter, and the resources are marked for cs_destroy.
  pub cs_init-opens :
      (n : ℤ) (m : Method) (s t : Globals os)
      → method_of n ≡ some m
      → Protects m
      → cs_init os n s ≡ done tt t
      → (free_of os law m t ≡ 1) × IsReady os law m t × (t.cs_var_allocated ≡ true)
  cs_init-opens n m s t d p h =
      let (u, e, q) = init-done os n s t h in
      let e' : init_method os (some m) (record s { cs_method_used = n }) ≡ done tt u = rw d at e in
      let (one, conf) = init_method-opens m _ u p e' in
      let used : u.cs_method_used ≡ n = method_used-init (some m) _ u e' in
      rw q (
        free-mark m u ∙ one,
        record { used = ap method_of used ∙ d; configured = Configured-mark m u conf },
        refl,
      )
