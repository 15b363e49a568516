-- ===== src/Section/Variants/BusyWait.antt =====
-- locked_testAset_xchng.h: the methods that wait busily.
use nnos.Prelude.{
  true, false, Option, none, some, if◌then◌else◌, Run, done, Act, ◌>>◌, skip, modify, exit,
}
use nnos.Prelude.Int.{ℤ}
use nnos.Kernel.{Os}
use nnos.Section.{
  Method, locked, test_xchg, xchg, method_of, EnterPc, polling, claiming, Globals, exit_failure,
}
use nnos.Section.Variants.{Entering}

module _ (os : Os) where
  -- the cases of cs_init
  unfoldable pub init_method : Option Method → Act (Globals os) (Unit {0})
  init_method none = exit exit_failure
  init_method (some locked) = modify (λ s. record s { locked = false })
  init_method (some test_xchg) = modify (λ s. record s { locked = false })
  init_method (some xchg) = modify (λ s. record s { locked_atomic = false })
  init_method (some m) = skip

  unfoldable pub cs_init : ℤ → Act (Globals os) (Unit {0})
  cs_init method = do
    modify (λ s. record s { cs_method_used = method })
    init_method (method_of method)
    modify (λ s. record s { cs_var_allocated = true })

  -- There is nothing to release.
  unfoldable pub cs_destroy : Globals os → Run (Globals os) (Unit {0})
  cs_destroy s = done tt s

  -- the cases of cs_enter, one access to shared memory at a time
  unfoldable pub enter_method : Option Method → EnterPc → Globals os → Entering os
  enter_method (some locked) polling s = done (some (if s.locked then polling else claiming)) s
  enter_method (some locked) claiming s = done none (record s { locked = true })
  enter_method (some test_xchg) polling s = done (some (if s.locked then polling else claiming)) s
  enter_method (some test_xchg) claiming s =
      done (if s.locked then some polling else none) (record s { locked = true })
  enter_method (some xchg) pc s =
      done (if s.locked_atomic then some polling else none) (record s { locked_atomic = true })
  enter_method m pc s = done none s

  unfoldable pub leave_method : Option Method → Globals os → Run (Globals os) (Unit {0})
  leave_method (some locked) s = done tt (record s { locked = false })
  leave_method (some test_xchg) s = done tt (record s { locked = false })
  leave_method (some xchg) s = done tt (record s { locked_atomic = false })
  leave_method m s = done tt s
