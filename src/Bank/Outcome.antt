-- ===== src/Bank/Outcome.antt =====
-- What main of bank_deposit_CPUtime.c reports, with any header whose cs_init opens a lock.
use nnos.Prelude.{
  ℕ, ◌*◌, ◌<◌, ◌≡◌, ap, inl, inr, true, false, some, List, ◌++◌, Run, done, Bool-cases, arith,
}
use nnos.Prelude.Int.{ℤ, pos, ltb_ℤ, eqb_ℤ}
use nnos.Lock.{Lock, IsLock}
use nnos.Bank.{Config, Opt, eval_args, expected_balance, exit_status, u32}
use nnos.Bank.Threads.{run, created, all_finished}
use nnos.Bank.Safety.{balance_as_expected}
use nnos.Bank.Liveness.{can_finish}
use nnos.Bank.Main.{main, run_threads}

eqb_refl : (a : ℤ) → eqb_ℤ a a ≡ true
eqb_refl a = ground arith

exit_status_same : (a b : ℤ) → a ≡ b → exit_status a b ≡ 0
unfolding exit_status
exit_status_same a b e = rw (e, eqb_refl b)

module _ (l : Lock) (law : IsLock l) (cs_init : ℤ → ℕ → l.State → Run l.State (Unit {0})) where
  run_threads_status :
      (c : Config) (ks : List ℕ) (t : l.State) (code : ℕ)
      → c.thread_count * c.bank_transactions_per_thread < u32
      → law.Ready t
      → law.free t ≡ 1
      → run_threads l cs_init c 0 true ks t ≡ some code
      → code ≡ 0
  run_threads_status c ks t code fits ready one h =
      elim (Bool-cases (all_finished l (run l c ks (created l c t)).threads)) [
        | inl all ↦
            let same = balance_as_expected l law c t ks ready one fits all in
            ground (
              arith,
              exit_status_same (run l c ks (created l c t)).balance (expected_balance c) same,
            )
        | inr more ↦ absurd (ground arith)
      ]

  -- Let cs_enter and cs_leave keep the laws of a lock, and let cs_init return with its place free. If
  -- a method has been chosen, the product of the counts fits an unsigned int, and the barrier and the
  -- threads' creation succeed, main can only exit with 0: no interleaving of the threads makes it
  -- report an error in the transactions. `long long` has no bound here.
  pub main_success :
      (opts : List Opt) (c₀ c : Config) (ks : List ℕ) (s t : l.State) (code : ℕ)
      → eval_args opts c₀ ≡ done tt c
      → ltb_ℤ c.cs_method (pos 0) ≡ false
      → c.thread_count * c.bank_transactions_per_thread < u32
      → cs_init c.cs_method c.thread_count s ≡ done tt t
      → law.Ready t
      → law.free t ≡ 1
      → main l cs_init opts c₀ 0 true ks s ≡ some code
      → code ≡ 0
  unfolding main
  main_success opts c₀ c ks s t code a chosen fits i ready one h =
      run_threads_status c ks t code fits ready one
        (let h1 = rw a at h in let h2 = rw chosen at h1 in rw i at h2)

  -- Let cs_enter and cs_leave keep the laws of a lock, and let cs_init return with its place free. If
  -- a method has been chosen, the product of the counts fits an unsigned int, and the barrier and the
  -- threads' creation succeed, main can return from every point of every schedule: there is a
  -- continuation of the schedule with which it exits with 0. `long long` has no bound here.
  pub main_returns :
      (opts : List Opt) (c₀ c : Config) (ks : List ℕ) (s t : l.State)
      → eval_args opts c₀ ≡ done tt c
      → ltb_ℤ c.cs_method (pos 0) ≡ false
      → c.thread_count * c.bank_transactions_per_thread < u32
      → cs_init c.cs_method c.thread_count s ≡ done tt t
      → law.Ready t
      → law.free t ≡ 1
      → (ls : List ℕ) × (main l cs_init opts c₀ 0 true (ks ++ ls) s ≡ some 0)
  unfolding main
  main_returns opts c₀ c ks s t a chosen fits i ready one =
      let (ls, all) = can_finish l law c t ks ready one in
      let same = balance_as_expected l law c t (ks ++ ls) ready one fits all in
      (ls, rw (a, chosen, i, all) (ap some (exit_status_same _ _ same)))
