-- ===== src/Section/AsLock.antt =====
-- everything.h as a lock: its cs_enter and cs_leave keep the laws for every method that protects.
use nnos.Prelude.{◌≡◌, ◌⊎◌, inl, inr, true, none, some, arith}
use nnos.Kernel.{Os, Contract}
use nnos.Lock.{Lock, IsLock, lets_in, Admits}
use nnos.Section.{Method, EnterPc, polling, claiming, Globals, atomic, locked, xchg, test_xchg}
use nnos.Section.Access.{lock_call, enter_step, enter_method, cs_leave, Progress}
use nnos.Section.Free.{Protects, object, free_of, IsReady}
use nnos.Section.Lock.{takes-lock_call, Steps, enter_step-Steps, cs_leave-free}

abbrev pub section_lock : Os → Lock
section_lock os = record {
  State = Globals os;
  Outside = EnterPc;
  first = polling;
  enter = enter_step os;
  leave = cs_leave os;
}

module _ (os : Os) (law : Contract os) where
  enter_step_lem :
      (m : Method) (pc : EnterPc) (s : Globals os)
      → IsReady os law m s
      → enter_step os pc s ≡ enter_method os (some m) pc s
  unfolding enter_step
  enter_step_lem m pc s r = rw r.used

  -- A thread that finds the place free is in after one step, or after the test and the exchange.
  enters :
      (m : Method) (pc : EnterPc) (s : Globals os)
      → Protects m
      → IsReady os law m s
      → free_of os law m s ≡ 1
      → ((t : Globals os) × (enter_method os (some m) pc s ≡ (none, t)))
        ⊎ ((enter_method os (some m) pc s ≡ (some claiming, s))
            × ((enter_method os (some m) claiming s).0 ≡ none))
  unfolding enter_method
  enters atomic pc s p r one = absurd p
  enters locked pc s p r one = absurd p
  enters xchg pc s p r one = inl (record s { locked_atomic = true }, ground arith)
  enters test_xchg polling s p r one = inr (ground arith, ground arith)
  enters test_xchg claiming s p r one = inl (record s { locked = true }, ground arith)
  enters m pc s p r one =
      let (reply, v, call, left) =
        law.take_one (lock_call os s m) (object os law s m) s.world 0
          (takes-lock_call os law m s r.configured) one in
      inl (record s { world = v }, rw call)

module _ (os : Os) (law : Contract os) (m : Method) (p : Protects m) where
  pub Steps-Admits :
      (s : Globals os) (q : Progress os)
      → Steps os law m s q
      → Admits (free_of os law m) (IsReady os law m) s q
  Steps-Admits s (none, t) h = h
  Steps-Admits s (some pc, t) h = h

  -- A thread that runs alone is let in within two steps of cs_enter, when the place is free and the
  -- method protects and is in use with its calls set up.
  pub alone :
      (pc : EnterPc) (s : Globals os)
      → IsReady os law m s
      → free_of os law m s ≡ 1
      → lets_in (section_lock os) 2 pc s ≡ true
  unfolding lets_in
  alone pc s r one = elim (enters os law m pc s p r one) [
    | inl (t, e) ↦ ground (arith, enter_step_lem os law m pc s r)
    | inr (e, d) ↦
        ground (arith, enter_step_lem os law m pc s r, enter_step_lem os law m claiming s r)
  ]

  unfoldable pub section-IsLock : IsLock (section_lock os)
  section-IsLock = record {
    free = free_of os law m;
    Ready = IsReady os law m;
    enter-Admits = λ pc s r h. Steps-Admits s _ (enter_step-Steps os law m pc s p r h);
    enter_alone = alone;
    leave-free = λ s r e. cs_leave-free os law m s p r e;
  }
