-- ===== src/Deposit/Tests.antt =====
-- bank_deposit.c on concrete inputs.
use nnos.Prelude.{ℕ, ◌*◌, ◌≡◌, refl, true, some, List, [], ◌∷◌, done, arith}
use nnos.Prelude.Int.{pos, ◌+ℤ◌, ◌-ℤ◌, ◌*ℤ◌}
use nnos.Deposit.{
  Config, defaults, new_defaults, Opt, opt_c, opt_t, eval_opt, eval_args, deposit_money, move, step,
  run, created, all_finished, expected_balance, verdict, main,
}
use nnos.Deposit.Count.{after, Shows, finished_count}
use nnos.Deposit.Verdict.{main_can_fail}

-- "-c 2 -t 2"
abbrev options : List Opt
options = opt_c (pos 2) ∷ opt_t (pos 2) ∷ []

abbrev two_by_two : Config
two_by_two = record new_defaults { thread_count = 2; bank_transactions_per_thread = 2 }

options_read : eval_args options new_defaults ≡ done tt two_by_two
unfolding eval_args eval_opt
options_read = refl

-- one thread after the other, and a schedule with a lost deposit
abbrev one_by_one : List ℕ
one_by_one = 0 ∷ 0 ∷ 0 ∷ 0 ∷ 0 ∷ 0 ∷ 0 ∷ 1 ∷ 1 ∷ 1 ∷ 1 ∷ 1 ∷ 1 ∷ 1 ∷ []

abbrev overlapping : List ℕ
overlapping = 0 ∷ 0 ∷ 1 ∷ 1 ∷ 1 ∷ 0 ∷ 0 ∷ 0 ∷ 0 ∷ 0 ∷ 1 ∷ 1 ∷ 1 ∷ 1 ∷ []

succeeds : main options new_defaults 0 true one_by_one ≡ some 0
unfolding main eval_args eval_opt run step move deposit_money verdict all_finished expected_balance
    ◌+ℤ◌ ◌-ℤ◌ ◌*ℤ◌
succeeds = refl

fails_once : main options new_defaults 0 true overlapping ≡ some 1
unfolding main eval_args eval_opt run step move deposit_money verdict all_finished expected_balance
    ◌+ℤ◌ ◌-ℤ◌ ◌*ℤ◌
fails_once = refl

too_many : main (opt_c (pos 101) ∷ []) defaults 0 true [] ≡ some 2
unfolding main eval_args eval_opt
too_many = refl

finished_count_example :
    Shows two_by_two (2 * 2) (run two_by_two overlapping (created two_by_two)).balance
unfolding run step move deposit_money all_finished ◌+ℤ◌ ◌-ℤ◌
finished_count_example = finished_count two_by_two overlapping refl

main_can_fail_example :
    (ks : List ℕ) × ((run two_by_two ks (created two_by_two)).balance ≡ after two_by_two 2)
    × (main options new_defaults 0 true ks ≡ some 1)
main_can_fail_example =
    main_can_fail options new_defaults two_by_two options_read refl (omega arith) (omega arith)
      (λ e. ground (arith, e))
