-- ===== src/Section/Lock.antt =====
-- What a step of cs_enter and a call of cs_leave do to the lock, for the methods that protect.
use nnos.Prelude.{ℕ, zero, suc, ◌≡◌, ◌≤◌, refl, false, none, some, arith}
use nnos.Kernel.{Os, Contract, takes, gives}
use nnos.Section.{
  Method, atomic, locked, xchg, test_xchg, sem_sysv, Globals, EnterPc, polling, claiming,
}
use nnos.Section.Access.{
  Progress, lock_call, unlock_call, enter_method, enter_step, cs_leave, leave_method,
}
use nnos.Section.Free.{Protects, object, free_of, Configured, IsReady}

module _ (os : Os) (law : Contract os) where
  -- A step of cs_enter from `s`: the thread is let in and takes the place, or it stays outside and
  -- the place is as before.
  abbrev pub Steps : Method → Globals os → Progress os → Type 0
  Steps m s (none, t) = (free_of os law m s ≡ 1) × (free_of os law m t ≡ 0) × IsReady os law m t
  Steps m s (some pc, t) = (free_of os law m t ≡ free_of os law m s) × IsReady os law m t

  pub takes-lock_call :
      (m : Method) (s : Globals os)
      → Configured os m s
      → takes (lock_call os s m) ≡ some (object os law s m)
  takes-lock_call sem_sysv s c = ground arith
  takes-lock_call _ s c = refl

  gives-unlock_call :
      (m : Method) (s : Globals os)
      → Configured os m s
      → gives (unlock_call os s m) ≡ some (object os law s m)
  gives-unlock_call sem_sysv s c = ground arith
  gives-unlock_call _ s c = refl

  enter_call-Steps :
      (m : Method) (pc : EnterPc) (s : Globals os) (u : ℕ)
      → u ≤ 1
      → free_of os law m s ≡ u
      → Protects m
      → IsReady os law m s
      → Steps m s (enter_method os (some m) pc s)
  unfolding enter_method
  enter_call-Steps xchg pc s u h e p r = ground arith
  enter_call-Steps test_xchg polling s u h e p r = ground arith
  enter_call-Steps test_xchg claiming s u h e p r = ground arith
  enter_call-Steps atomic pc s u h e p r = absurd p
  enter_call-Steps locked pc s u h e p r = absurd p
  enter_call-Steps m pc s zero h e p r =
      rw
        (law.take_blocks (lock_call os s m) (object os law s m) s.world
          (takes-lock_call m s r.configured) e)
        (refl, r)
  enter_call-Steps m pc s (suc zero) h e p r =
      let (reply, v, call, left) =
        law.take_one (lock_call os s m) (object os law s m) s.world 0
          (takes-lock_call m s r.configured) e in
      rw call (e, left, record { used = r.used; configured = r.configured })
  enter_call-Steps m pc s (suc (suc n)) h e p r = absurd (omega arith)

  -- For a method that protects and is in use with its calls set up, where at most one thread may
  -- enter, every step of cs_enter lets the thread in and takes the free place, or leaves it outside
  -- with the place as it was.
  pub enter_step-Steps :
      (m : Method) (pc : EnterPc) (s : Globals os)
      → Protects m
      → IsReady os law m s
      → free_of os law m s ≤ 1
      → Steps m s (enter_step os pc s)
  unfolding enter_step
  enter_step-Steps m pc s p r h =
      rw r.used (enter_call-Steps m pc s (free_of os law m s) h refl p r)

  leave_method-free :
      (m : Method) (s : Globals os)
      → Protects m
      → IsReady os law m s
      → free_of os law m s ≡ 0
      → (t : Globals os) × (leave_method os (some m) s ≡ some t)
        × (free_of os law m t ≡ 1)
        × IsReady os law m t
  unfolding leave_method
  leave_method-free atomic s p r e = absurd p
  leave_method-free locked s p r e = absurd p
  leave_method-free xchg s p r e =
      (record s { locked_atomic = false }, refl, refl, record { used = r.used; configured = tt })
  leave_method-free test_xchg s p r e =
      (record s { locked = false }, refl, refl, record { used = r.used; configured = tt })
  leave_method-free m s p r e =
      let (reply, v, call, one) =
        law.give_one (unlock_call os s m) (object os law s m) s.world
          (gives-unlock_call m s r.configured) e in
      (record s { world = v }, rw call, one, record { used = r.used; configured = r.configured })

  -- For a method that protects and is in use with its calls set up, while its place is taken,
  -- cs_leave returns and gives the place back.
  pub cs_leave-free :
      (m : Method) (s : Globals os)
      → Protects m
      → IsReady os law m s
      → free_of os law m s ≡ 0
      → (t : Globals os) × (cs_leave os s ≡ some t) × (free_of os law m t ≡ 1) × IsReady os law m t
  unfolding cs_leave
  cs_leave-free m s p r e = rw r.used (leave_method-free m s p r e)
