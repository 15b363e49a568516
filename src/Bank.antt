-- ===== src/Bank.antt =====
-- 04-critical_section/CPUtime/v2021/bank_deposit_CPUtime.c: threads that deposit money on one
-- account. The time measurement, the texts and the barrier are left out: the barrier only delays
-- the start of threads, and a schedule may do the same.
pub mod Threads
pub mod Effect
pub mod Invariant
pub mod Safety
pub mod Main
pub mod Outcome
pub mod Races
mod Template
pub mod Lost
pub mod Wrap
pub mod Liveness
mod Tests
use nnos.Prelude.{
  ℕ, zero, suc, ◌+◌, ◌-◌, ◌*◌, ◌%◌, ◌^◌, Bool, true, false, Option, none, some, List, [], ◌∷◌,
  if◌then◌else◌, ltb, ◌||◌, Run, done, exited, blocked, Act, ◌>>=◌, ◌>>◌, skip, modify, exit, when,
}
use nnos.Prelude.Int.{ℤ, pos, negsuc, ltb_ℤ, eqb_ℤ, ◌+ℤ◌, ◌-ℤ◌, ◌*ℤ◌}

abbrev pub u32 : ℕ
u32 = 2 ^ 32

-- assignment of an `int` to an `unsigned int`
abbrev pub to_unsigned : ℤ → ℕ
to_unsigned (pos n) = n % u32
to_unsigned (negsuc n) = (u32 - 1) - n % u32

abbrev pub max_threads : ℕ
max_threads = 1024

-- the globals that eval_args sets
pub record Config : Type 0 where
  pub sync_start : Bool
  pub verbose : ℤ
  pub cs_method : ℤ
  pub account_balance : ℤ
  pub bank_transaction_amount : ℤ
  pub bank_transaction_fee : ℤ
  pub bank_transactions_per_thread : ℕ
  pub thread_count : ℕ
  pub busy_wait_yields : Bool

abbrev pub defaults : Config
defaults = record {
  sync_start = true;
  verbose = pos 1;
  cs_method = negsuc 0;
  account_balance = pos 1;
  bank_transaction_amount = pos 101;
  bank_transaction_fee = pos 1;
  bank_transactions_per_thread = 10000;
  thread_count = 3;
  busy_wait_yields = false;
}

-- What getopt returns, with the number that atoi or atoll reads from the argument.
pub data Opt : Type 0 where
  opt_c opt_t opt_a opt_f opt_s opt_m : ℤ → Opt
  opt_q opt_v opt_w opt_y opt_h unknown : Opt

-- the cases of the switch in eval_args
eval_opt : Opt → Act Config (Unit {0})
eval_opt (opt_c n) = do
  modify (λ c. record c { thread_count = to_unsigned n })
  when (ltb (to_unsigned n) 1 || ltb max_threads (to_unsigned n)) (exit 2)
eval_opt (opt_t n) = modify (λ c. record c { bank_transactions_per_thread = to_unsigned n })
eval_opt (opt_a n) = modify (λ c. record c { bank_transaction_amount = n })
eval_opt (opt_f n) = modify (λ c. record c { bank_transaction_fee = n })
eval_opt (opt_s n) = modify (λ c. record c { account_balance = n })
eval_opt opt_q = modify (λ c. record c { verbose = pos 0 })
eval_opt opt_v = modify (λ c. record c { verbose = c.verbose +ℤ pos 1 })
eval_opt opt_w = modify (λ c. record c { sync_start = true })
eval_opt (opt_m n) = modify (λ c. record c { cs_method = n })
eval_opt opt_y = modify (λ c. record c { busy_wait_yields = true })
eval_opt opt_h = exit 0
eval_opt unknown = exit 2

pub eval_args : List Opt → Act Config (Unit {0})
unfolding eval_opt
eval_args [] = skip
eval_args (o ∷ os) = let rest = eval_args os in do eval_opt o; rest

unfoldable pub deposit_money : Config → (balance value : ℤ) → ℤ
deposit_money c balance value = balance +ℤ value -ℤ c.bank_transaction_fee

-- The product of the two `unsigned int` counts wraps before it is widened.
unfoldable pub expected_balance : Config → ℤ
expected_balance c =
    c.account_balance
    +ℤ pos (c.thread_count * c.bank_transactions_per_thread % u32)
      *ℤ (c.bank_transaction_amount -ℤ c.bank_transaction_fee)

-- the comparison at the end of main
unfoldable pub exit_status : (balance expected : ℤ) → ℕ
exit_status balance expected = if eqb_ℤ balance expected then 0 else 1
