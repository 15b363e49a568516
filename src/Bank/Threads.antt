-- ===== src/Bank/Threads.antt =====
-- The threads of bank_deposit under any lock, one access to shared memory at a time.
use nnos.Prelude.{
  ℕ, ◌+◌, Bool, true, false, Option, none, some, List, [], ◌∷◌, if◌then◌else◌, ltb, get_elem?, set,
  replicate,
}
use nnos.Prelude.Int.{ℤ}
use nnos.Lock.{Lock}
use nnos.Bank.{Config, deposit_money}

-- Where a thread stands in the loop of bank_deposit, with the loop's counter.
pub data Pc (O : Type 0) : Type 0 where
  looping : (i : ℕ) → Pc O  -- the test of the loop
  entering : (i : ℕ) → O → Pc O  -- in cs_enter
  inside : (i : ℕ) → Pc O  -- before deposit_money reads the balance
  computed : (i : ℕ) (v : ℤ) → Pc O  -- before its result is stored
  leaving : (i : ℕ) → Pc O  -- before cs_leave
  finished : Pc O

module _ (l : Lock) where
  -- the lock, the account and the threads
  pub record Sys : Type 0 where
    pub lock : l.State
    pub balance : ℤ
    pub threads : List (Pc l.Outside)

  -- what one thread does in one step: its new place and the shared state
  pub record Moved : Type 0 where
    pub pc : Pc l.Outside
    pub state : l.State
    pub account : ℤ

  abbrev pub entered : ℕ → ℤ → Option l.Outside × l.State → Moved
  entered i b (none, s) = record { pc = inside i; state = s; account = b }
  entered i b (some o, s) = record { pc = entering i o; state = s; account = b }

  abbrev left : ℕ → ℤ → l.State → Option l.State → Moved
  left i b s none = record { pc = leaving i; state = s; account = b }
  left i b s (some t) = record { pc = looping (i + 1); state = t; account = b }

  unfoldable pub move : Config → Pc l.Outside → l.State → ℤ → Moved
  move c (looping i) s b = record {
    pc = if ltb i c.bank_transactions_per_thread then entering i l.first else finished;
    state = s;
    account = b;
  }
  move c (entering i o) s b = entered i b (l.enter o s)
  move c (inside i) s b = record {
    pc = computed i (deposit_money c b c.bank_transaction_amount);
    state = s;
    account = b;
  }
  move c (computed i v) s b = record { pc = leaving i; state = s; account = v }
  move c (leaving i) s b = left i b s (l.leave s)
  move c finished s b = record { pc = finished; state = s; account = b }

  abbrev pub moved : Sys → ℕ → Moved → Sys
  moved y k m = record { lock = m.state; balance = m.account; threads = set y.threads k m.pc }

  -- The scheduler runs thread `k` for one step.
  unfoldable pub step : Config → Sys → ℕ → Sys
  step c y k = elim (get_elem? y.threads k) [
    | none ↦ y
    | some p ↦ moved y k (move c p y.lock y.balance)
  ]

  unfoldable pub run : Config → List ℕ → Sys → Sys
  run c [] y = y
  run c (k ∷ ks) y = run c ks (step c y k)

  -- the threads just created by main
  abbrev pub created : Config → l.State → Sys
  created c s = record {
    lock = s;
    balance = c.account_balance;
    threads = replicate c.thread_count (looping 0);
  }

  -- main joins all threads
  unfoldable pub all_finished : List (Pc l.Outside) → Bool
  all_finished [] = true
  all_finished (finished ∷ ps) = all_finished ps
  all_finished (_ ∷ ps) = false
