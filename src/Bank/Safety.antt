-- ===== src/Bank/Safety.antt =====
-- What every schedule of the deposit threads guarantees under a lock that keeps its laws.
use nnos.Prelude.{
  ℕ, ◌*◌, ◌<◌, ◌≡◌, ◌∙◌, ap, true, some, List, [], ◌∷◌, length, get_elem?, arith, ℕ_discrete,
}
use nnos.Prelude.Sums.{total, add-le-total}
use nnos.Lock.{Lock, IsLock}
use nnos.Bank.{Config, expected_balance, u32}
use nnos.Bank.Threads.{Pc, looping, finished, Sys, run, created, all_finished}
use nnos.Bank.Effect.{within, deposits}
use nnos.Bank.Invariant.{after, Inv, created-Inv, run-Inv}

module _ (l : Lock) (law : IsLock l) (c : Config) where
  -- Under a lock that keeps its laws and has its place free at the start, no schedule leads to two
  -- threads that are both between cs_enter and cs_leave.
  pub mutual_exclusion :
      (s : l.State) (ks : List ℕ) (i j : ℕ) (p q : Pc l.Outside)
      → law.Ready s
      → law.free s ≡ 1
      → get_elem? (run l c ks (created l c s)).threads i ≡ some p
      → get_elem? (run l c ks (created l c s)).threads j ≡ some q
      → within p ≡ 1
      → within q ≡ 1
      → i ≡ j
  mutual_exclusion s ks i j p q r one hp hq wp wq = elim (ℕ_discrete i j) [
    | yes same ↦ same
    | no ne ↦ absurd (omega (arith, v.places, add-le-total within y.threads i j p q hp hq ne))
  ]
    where
      y : Sys l
      y = run l c ks (created l c s)

      v : Inv l law c y
      v = run-Inv l law c ks (created l c s) (created-Inv l law c s r one)

  total-finished :
      (ps : List (Pc l.Outside))
      → all_finished l ps ≡ true
      → total (deposits c) ps ≡ length ps * c.bank_transactions_per_thread
  unfolding total all_finished
  total-finished [] h = omega arith
  total-finished (finished ∷ ps) h = grind (arith, total-finished ps h)
  total-finished (looping i ∷ ps) h = cc
  total-finished (p ∷ ps) h = ground arith

  pub balance_when_finished :
      (s : l.State) (ks : List ℕ)
      → law.Ready s
      → law.free s ≡ 1
      → all_finished l (run l c ks (created l c s)).threads ≡ true
      → (run l c ks (created l c s)).balance
        ≡ after c (c.thread_count * c.bank_transactions_per_thread)
  balance_when_finished s ks r one done = v.kept ∙ ap (after c) all
    where
      y : Sys l
      y = run l c ks (created l c s)

      v : Inv l law c y
      v = run-Inv l law c ks (created l c s) (created-Inv l law c s r one)

      all : total (deposits c) y.threads ≡ c.thread_count * c.bank_transactions_per_thread
      all = total-finished y.threads done ∙ ap (λ n. n * c.bank_transactions_per_thread) v.count

  -- Under a lock that keeps its laws and has its place free at the start, when all threads have
  -- finished, the account is what main expects, if the product of the two counts fits an unsigned
  -- int.
  pub balance_as_expected :
      (s : l.State) (ks : List ℕ)
      → law.Ready s
      → law.free s ≡ 1
      → c.thread_count * c.bank_transactions_per_thread < u32
      → all_finished l (run l c ks (created l c s)).threads ≡ true
      → (run l c ks (created l c s)).balance ≡ expected_balance c
  unfolding expected_balance
  balance_as_expected s ks r one fits done =
      balance_when_finished s ks r one done ∙ ap (after c) (omega arith)
