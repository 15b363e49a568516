-- ===== src/Bank/Lost.antt =====
-- bank_deposit_CPUtime.c with cs_methods.h as it stands.
use nnos.Prelude.{ℕ, ◌≡◌, ◌≢◌, ◌∙◌, ap, sym, true, false, some, refl, List, [], ◌∷◌, done, arith}
use nnos.Prelude.Int.{pos, ltb_ℤ}
use nnos.Bank.{Config, Opt, eval_args, deposit_money, expected_balance}
use nnos.Bank.Threads.{finished, move, step, run, created, all_finished}
use nnos.Bank.Effect.{deposited}
use nnos.Bank.Invariant.{after, after-zero, deposited-after}
use nnos.Bank.Wrap.{after-ne, exit_status_ne}
use nnos.Bank.Template.{Template, cs_init, cs_methods, no_lock}
use nnos.Bank.Main.{main}

-- both threads read the account before either writes it
abbrev pub both_read : List ℕ
both_read = 0 ∷ 0 ∷ 0 ∷ 1 ∷ 1 ∷ 1 ∷ 0 ∷ 0 ∷ 0 ∷ 1 ∷ 1 ∷ 1 ∷ []

one_lost :
    (c : Config) (s : Template)
    → c.thread_count ≡ 2
    → c.bank_transactions_per_thread ≡ 1
    → run no_lock c both_read (created no_lock c s) ≡ record {
      lock = s;
      balance = deposit_money c c.account_balance c.bank_transaction_amount;
      threads = finished ∷ finished ∷ [];
    }
unfolding run step move
one_lost c s two one = rw (two, one) refl

expected_two :
    (c : Config)
    → c.thread_count ≡ 2
    → c.bank_transactions_per_thread ≡ 1
    → expected_balance c ≡ after c 2
unfolding expected_balance
expected_two c two one = rw (two, one) refl

one_deposit : (c : Config) → deposit_money c c.account_balance c.bank_transaction_amount ≡ after c 1
one_deposit c = ap (deposited c) (sym (after-zero c)) ∙ deposited-after c 0

template_init :
    (c : Config) (s : Template)
    → ltb_ℤ c.cs_method (pos 0) ≡ false
    → ltb_ℤ c.cs_method cs_methods ≡ true
    → cs_init c.cs_method 2 s
      ≡ done tt (record { cs_method_used = c.cs_method; cs_var_allocated = true })
unfolding cs_init
template_init c s chosen known = rw (chosen, known) ground arith

-- With cs_methods.h as it stands and a method that it has, let two threads make one deposit each,
-- which changes the account, and let the barrier and the threads' creation succeed. Then there is a
-- schedule after which the account shows one deposit only, and main exits with 1.
pub template_can_fail :
    (opts : List Opt) (start c : Config) (s : Template)
    → eval_args opts start ≡ done tt c
    → ltb_ℤ c.cs_method (pos 0) ≡ false
    → ltb_ℤ c.cs_method cs_methods ≡ true
    → c.thread_count ≡ 2
    → c.bank_transactions_per_thread ≡ 1
    → c.bank_transaction_amount ≢ c.bank_transaction_fee
    → (ks : List ℕ) × (main no_lock cs_init opts start 0 true ks s ≡ some 1)
unfolding main all_finished
template_can_fail opts start c s read chosen known two one changes =
    let t : Template = record { cs_method_used = c.cs_method; cs_var_allocated = true } in
    let wrong =
      exit_status_ne (deposit_money c c.account_balance c.bank_transaction_amount)
        (expected_balance c)
        (λ e.
          after-ne c 1 2 (omega arith) changes
            (sym (expected_two c two one) ∙ sym e ∙ one_deposit c)) in
    (
      both_read,
      rw
          (
            read,
            chosen,
            ap (λ n. cs_init c.cs_method n s) two,
            template_init c s chosen known,
            one_lost c t two one,
          )
          (ap some wrong),
    )
