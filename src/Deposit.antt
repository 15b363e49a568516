-- ===== src/Deposit.antt =====
-- 04-critical_section/bank_deposit.c: the deposits without access control to the critical section,
-- which the file leaves to the reader. The texts and the barrier are left out: the barrier only delays
-- the start of threads, and a schedule may do the same. new/bank_deposit.c is the same program with
-- other defaults (`new_defaults`).
pub mod Count
pub mod Lost
pub mod Verdict
mod Tests
use nnos.Prelude.{
  ℕ, zero, suc, ◌+◌, ◌*◌, ◌%◌, Bool, true, false, not, Option, none, some, List, [], ◌∷◌,
  if◌then◌else◌, ltb, ◌==◌, ◌&&◌, ◌||◌, get_elem?, set, replicate, Run, done, exited, blocked, Act,
  ◌>>=◌, ◌>>◌, skip, modify, exit, when,
}
use nnos.Prelude.Int.{ℤ, pos, eqb_ℤ, ◌+ℤ◌, ◌-ℤ◌, ◌*ℤ◌}
use nnos.Bank.{u32, to_unsigned}

-- the globals that eval_args sets
pub record Config : Type 0 where
  pub sync_start : Bool
  pub verbose : ℤ
  pub account_balance : ℤ
  pub bank_transaction_amount : ℤ
  pub bank_transaction_fee : ℤ
  pub bank_transactions_per_thread : ℕ
  pub thread_count : ℕ

abbrev pub defaults : Config
defaults = record {
  sync_start = false;
  verbose = pos 1;
  account_balance = pos 1;
  bank_transaction_amount = pos 101;
  bank_transaction_fee = pos 1;
  bank_transactions_per_thread = 10000;
  thread_count = 3;
}

-- those of new/bank_deposit.c
abbrev pub new_defaults : Config
new_defaults = record defaults { account_balance = pos 1000000; bank_transaction_amount = pos 100 }

-- What getopt returns for "hwqvc:t:a:f:s:", with the number that atoi or atoll reads.
pub data Opt : Type 0 where
  opt_c opt_t opt_a opt_f opt_s : ℤ → Opt
  opt_q opt_v opt_w opt_h unknown : Opt

-- the cases of the switch in eval_args
unfoldable pub eval_opt : Opt → Act Config (Unit {0})
eval_opt (opt_c n) = do
  modify (λ c. record c { thread_count = to_unsigned n })
  when (ltb (to_unsigned n) 1 || ltb 100 (to_unsigned n)) (exit 2)
eval_opt (opt_t n) = modify (λ c. record c { bank_transactions_per_thread = to_unsigned n })
eval_opt (opt_a n) = modify (λ c. record c { bank_transaction_amount = n })
eval_opt (opt_f n) = modify (λ c. record c { bank_transaction_fee = n })
eval_opt (opt_s n) = modify (λ c. record c { account_balance = n })
eval_opt opt_q = modify (λ c. record c { verbose = pos 0 })
eval_opt opt_v = modify (λ c. record c { verbose = c.verbose +ℤ pos 1 })
eval_opt opt_w = modify (λ c. record c { sync_start = true })
eval_opt opt_h = exit 0
eval_opt unknown = exit 2

unfoldable pub eval_args : List Opt → Act Config (Unit {0})
eval_args [] = skip
eval_args (o ∷ os) = let rest = eval_args os in do eval_opt o; rest

unfoldable pub deposit_money : Config → (balance value : ℤ) → ℤ
deposit_money c balance value = balance +ℤ value -ℤ c.bank_transaction_fee

-- where a thread stands in the loop of bank_deposit, with the loop's counter
pub data Pc : Type 0 where
  looping : (i : ℕ) → Pc  -- the test of the loop
  reading : (i : ℕ) → Pc  -- before deposit_money reads the balance
  storing : (i : ℕ) (v : ℤ) → Pc  -- before its result is stored
  finished : Pc

-- what one thread does between two accesses to the account: its new place and the account
unfoldable pub move : Config → Pc → (balance : ℤ) → Pc × ℤ
move c (looping i) b = (if ltb i c.bank_transactions_per_thread then reading i else finished, b)
move c (reading i) b = (storing i (deposit_money c b c.bank_transaction_amount), b)
move c (storing i v) b = (looping (i + 1), v)
move c finished b = (finished, b)

pub record Sys : Type 0 where
  pub balance : ℤ
  pub threads : List Pc

-- The scheduler runs thread `k` for one step.
unfoldable pub step : Config → Sys → ℕ → Sys
step c y k = elim (get_elem? y.threads k) [
  | none ↦ y
  | some p ↦
      (let (q, b) = move c p y.balance in record { balance = b; threads = set y.threads k q })
]

unfoldable pub run : Config → List ℕ → Sys → Sys
run c [] y = y
run c (k ∷ ks) y = run c ks (step c y k)

-- the threads just created by main
abbrev pub created : Config → Sys
created c = record { balance = c.account_balance; threads = replicate c.thread_count (looping 0) }

unfoldable pub all_finished : List Pc → Bool
all_finished [] = true
all_finished (finished ∷ ps) = all_finished ps
all_finished (_ ∷ ps) = false

-- The product of the two `unsigned int` counts wraps before it is widened.
unfoldable pub expected_balance : Config → ℤ
expected_balance c =
    c.account_balance
    +ℤ pos (c.thread_count * c.bank_transactions_per_thread % u32)
      *ℤ (c.bank_transaction_amount -ℤ c.bank_transaction_fee)

-- main after the creation of the threads: `none` while one still runs
unfoldable pub verdict : Config → Sys → Option ℕ
verdict c y =
    if all_finished y.threads
    then some (if eqb_ℤ y.balance (expected_balance c) then 0 else 1)
    else none

abbrev pub after_args : (barrier : ℕ) (create : Bool) → List ℕ → Run Config (Unit {0}) → Option ℕ
after_args barrier create ks (done _ c) =
    if c.sync_start && not (barrier == 0)
    then some 3
    else (if create then verdict c (run c ks (created c)) else some 3)
after_args barrier create ks (exited code c) = some code
after_args barrier create ks blocked = none

-- The exit status of main: `barrier` is the result of pthread_barrier_init, `create` whether every
-- pthread_create succeeds, and the list is the schedule of the threads.
unfoldable pub main : List Opt → Config → (barrier : ℕ) (create : Bool) → List ℕ → Option ℕ
main opts c barrier create ks = after_args barrier create ks (eval_args opts c)
