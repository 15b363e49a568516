-- ===== src/Deposit/Verdict.antt =====
-- What main of bank_deposit.c can report.
use nnos.Prelude.{
  ℕ, ◌-◌, ◌*◌, ◌≤◌, ◌<◌, ◌≡◌, ◌≢◌, ◌∙◌, sym, ap, refl, true, some, List, [], ◌∷◌, arith, done,
  Bool-cases, inl, inr,
}
use nnos.Prelude.Int.{ℤ, pos, ◌-ℤ◌, eqb_ℤ, int_laws, pos_part, neg_part}
use nnos.Bank.{u32}
use nnos.Bank.Wrap.{scaled, eqb_sound}
use nnos.Deposit.{
  Config, deposit_money, finished, run, created, all_finished, expected_balance, verdict, Opt,
  eval_args, main,
}
use nnos.Deposit.Count.{after, after-zero, deposit_money-after}
use nnos.Deposit.Lost.{all_but_two_lost}

after-ne :
    (c : Config) (n m : ℕ)
    → n < m
    → c.bank_transaction_amount ≢ c.bank_transaction_fee
    → after c n ≢ after c m
after-ne c n m h ne e = ne (omega (int_laws, ap pos_part zero_step, ap neg_part zero_step))
  where
    d : ℤ
    d = c.bank_transaction_amount -ℤ c.bank_transaction_fee

    zero_step : d ≡ pos 0
    zero_step = scaled n m d h (omega (int_laws, ap pos_part e, ap neg_part e))

expected_fits :
    (c : Config)
    → c.thread_count * c.bank_transactions_per_thread < u32
    → expected_balance c ≡ after c (c.thread_count * c.bank_transactions_per_thread)
unfolding expected_balance
expected_fits c fits = ap (after c) (omega arith)

twice :
    (c : Config)
    → deposit_money c
        (deposit_money c c.account_balance c.bank_transaction_amount)
        c.bank_transaction_amount
      ≡ after c 2
twice c =
    let d = λ (b : ℤ). deposit_money c b c.bank_transaction_amount in
    ap (λ b. d (d b)) (sym (after-zero c))
    ∙ ap d (deposit_money-after c 0)
    ∙ deposit_money-after c 1

fails :
    (c : Config) (b : ℤ)
    → b ≢ expected_balance c
    → verdict c (record { balance = b; threads = finished ∷ finished ∷ [] }) ≡ some 1
unfolding verdict all_finished
fails c b ne = elim (Bool-cases (eqb_ℤ b (expected_balance c))) [
  | inl same ↦ absurd (ne (eqb_sound b (expected_balance c) same))
  | inr other ↦ rw other refl
]

-- With two threads that make two deposits or more each, counts whose product fits an unsigned int and
-- deposits that change the account, there is a schedule after which the account shows two deposits
-- only, and main reports an error in the transactions and exits with 1.
pub main_can_fail :
    (opts : List Opt) (start c : Config)
    → eval_args opts start ≡ done tt c
    → c.thread_count ≡ 2
    → 2 ≤ c.bank_transactions_per_thread
    → c.thread_count * c.bank_transactions_per_thread < u32
    → c.bank_transaction_amount ≢ c.bank_transaction_fee
    → (ks : List ℕ) × ((run c ks (created c)).balance ≡ after c 2)
      × (main opts start 0 true ks ≡ some 1)
unfolding main
main_can_fail opts start c read two many fits ne =
    let lost = all_but_two_lost c (c.bank_transactions_per_thread - 2) (omega arith) two in
    let all = c.thread_count * c.bank_transactions_per_thread in
    let more : 2 < all = grind arith in
    let wrong : after c 2 ≢ expected_balance c =
      λ e. after-ne c 2 all more ne (e ∙ expected_fits c fits) in
    let error = fails c _ (λ e. wrong (sym (twice c) ∙ e)) in
    (
      lost.schedule,
      ap (λ y. y.balance) lost.reaches ∙ twice c,
      rw (read, lost.reaches) (ground (arith, error)),
    )
