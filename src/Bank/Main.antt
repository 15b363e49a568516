-- ===== src/Bank/Main.antt =====
-- main of bank_deposit_CPUtime.c, as far as it decides the exit status. The header cs_methods.h that
-- it includes has empty cs_enter and cs_leave for the reader to fill in: they are the parameter `Lock`,
-- and cs_init with them. The barrier and the thread creation are calls of pthreads: their results are
-- arguments, and so is the order in which the threads run.
use nnos.Prelude.{
  ℕ, Bool, Option, none, some, List, if◌then◌else◌, Run, done, exited, blocked, ◌==◌, ◌&&◌, not,
}
use nnos.Prelude.Int.{ℤ, pos, ltb_ℤ}
use nnos.Lock.{Lock}
use nnos.Bank.{Config, Opt, eval_args, expected_balance, exit_status}
use nnos.Bank.Threads.{Sys, run, created, all_finished}

module _ (l : Lock)
    (cs_init : (method : ℤ) → (threads : ℕ) → l.State → Run l.State (Unit {0})) where
  -- after the joins: `none` while a thread still runs
  abbrev pub compare_balance : Config → Sys l → Option ℕ
  compare_balance c y =
      if all_finished l y.threads then some (exit_status y.balance (expected_balance c)) else none

  abbrev pub run_threads : Config → (barrier : ℕ) (create : Bool) → List ℕ → l.State → Option ℕ
  run_threads c barrier create ks s =
      if not (barrier == 0) && c.sync_start
      then some 3
      else (if create then compare_balance c (run l c ks (created l c s)) else some 3)

  abbrev pub after_init : Config → ℕ → Bool → List ℕ → Run (l.State) (Unit {0}) → Option ℕ
  after_init c barrier create ks (done _ s) = run_threads c barrier create ks s
  after_init c barrier create ks (exited code _) = some code
  after_init c barrier create ks blocked = none

  abbrev pub after_args : Run Config (Unit {0}) → ℕ → Bool → List ℕ → l.State → Option ℕ
  after_args (done _ c) barrier create ks s =
      if ltb_ℤ c.cs_method (pos 0)
      then some 2
      else after_init c barrier create ks (cs_init c.cs_method c.thread_count s)
  after_args (exited code _) barrier create ks s = some code
  after_args blocked barrier create ks s = none

  -- `barrier` is the result of pthread_barrier_init, which is called for a synchronous start,
  -- `create` whether every pthread_create succeeded.
  unfoldable pub main :
      List Opt → Config → (barrier : ℕ) (create : Bool) → List ℕ → l.State → Option ℕ
  main opts c barrier create ks s = after_args (eval_args opts c) barrier create ks s
