-- ===== src/Peterson/Tests.antt =====
-- The two threads of bank_transactions_Peterson.c on concrete inputs.
use nnos.Prelude.{ℕ, ◌≡◌, refl, Bool, true, false, arith, List, [], ◌∷◌, ◌++◌, replicate}
use nnos.Prelude.Int.{pos, ◌+ℤ◌, ◌-ℤ◌}
use nnos.Peterson.{System, look, finished, act, step, run, start, verdict}
use nnos.Peterson.Invariant.{critical}
use nnos.Peterson.Finish.{both_can_finish}
use nnos.Peterson.Safety.{at_most_one, no_bad_transactions}

-- both threads ask for the critical section, the zeroth first
abbrev asking : List (Bool × ℕ)
asking =
    (false, 4)
    ∷ (true, 2)
    ∷ (false, 0)
    ∷ (true, 0)
    ∷ (false, 0)
    ∷ (true, 0)
    ∷ (false, 0)
    ∷ (false, 0)
    ∷ (true, 0)
    ∷ (true, 0)
    ∷ []

zeroth_in : critical (run (pos 7) asking (start (pos 7))).zeroth.pc ≡ true
unfolding run step act
zeroth_in = refl

at_most_one_example : critical (run (pos 7) asking (start (pos 7))).first.pc ≡ false
at_most_one_example = at_most_one (pos 7) asking (omega arith) zeroth_in

-- each thread moves what it can, after the other
abbrev turns : List (Bool × ℕ)
turns = replicate 13 (false, 9) ++ replicate 17 (true, 1)

zeroth_done : (run (pos 7) turns (start (pos 7))).zeroth.pc ≡ finished
unfolding run step act ◌+ℤ◌ ◌-ℤ◌
zeroth_done = refl

first_done : (run (pos 7) turns (start (pos 7))).first.pc ≡ finished
unfolding run step act ◌+ℤ◌ ◌-ℤ◌
first_done = refl

no_bad_transactions_example : verdict (pos 7) (run (pos 7) turns (start (pos 7))) ≡ true
no_bad_transactions_example = no_bad_transactions (pos 7) turns (omega arith) zeroth_done first_done

-- both threads wait, and the zeroth has the turn
abbrev both_wait : System
both_wait = record {
  zeroth = record {
    pc = look (pos 5) false;
    flag = true;
    trans_per_thread = 0;
    waits_per_thread = 0;
  };
  first = record {
    pc = look (pos 3) false;
    flag = true;
    trans_per_thread = 0;
    waits_per_thread = 0;
  };
  shared = record { turn = false; rich_guy = pos 7; poor_guy = pos 0 };
}

both_can_finish_example :
    (es : List (Bool × ℕ)) × (let y = run (pos 7) (asking ++ es) (start (pos 7)) in
      (y.zeroth.pc ≡ finished) × (y.first.pc ≡ finished) × (verdict (pos 7) y ≡ true))
both_can_finish_example = both_can_finish (pos 7) asking (omega arith)
