-- ===== src/Bank/Races.antt =====
-- What goes wrong: the method CS_METHOD_LOCKED lets two threads in, and the expected balance wraps.
use nnos.Prelude.{ℕ, suc, ◌<◌, ◌≡◌, false, some, [], ◌∷◌, get_elem?, arith}
use nnos.Kernel.{Os}
use nnos.Section.{locked, Globals, method_of}
use nnos.Section.Access.{enter_step, enter_method}
use nnos.Section.AsLock.{section_lock}
use nnos.Bank.{Config}
use nnos.Bank.Threads.{inside, move, step, run, created}

module _ (os : Os) where
  -- Under CS_METHOD_LOCKED, with two threads or more that have a transaction to make, two that both
  -- pass the test before either writes the flag are both let in.
  pub locked_admits_two :
      (c : Config) (s : Globals os) (n : ℕ)
      → c.thread_count ≡ suc (suc n)
      → 0 < c.bank_transactions_per_thread
      → method_of s.cs_method_used ≡ some locked
      → s.locked ≡ false
      → let y =
          run (section_lock os) c (0 ∷ 0 ∷ 1 ∷ 1 ∷ 0 ∷ 1 ∷ []) (created (section_lock os) c s) in
        (get_elem? y.threads 0 ≡ some (inside 0)) × (get_elem? y.threads 1 ≡ some (inside 0))
  unfolding run step move enter_step enter_method
  locked_admits_two c s n two some_left used free = ground arith
