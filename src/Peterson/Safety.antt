-- ===== src/Peterson/Safety.antt =====
-- What every schedule of the two threads of bank_transactions_Peterson.c guarantees.
use nnos.Prelude.{ℕ, ◌≡◌, ap, Bool, true, false, arith, List}
use nnos.Prelude.Int.{ℤ, pos, ◌+ℤ◌, ◌≤ℤ◌, int_laws, eq_of_parts, pos_part, neg_part}
use nnos.Peterson.{finished, System, run, start, verdict}
use nnos.Peterson.Invariant.{critical, transit, SysInv, start-Inv, run-Inv, exclusive}

module _ (amount : ℤ) where
  reached : (es : List (Bool × ℕ)) → pos 1 ≤ℤ amount → SysInv amount (run amount es (start amount))
  reached es h = run-Inv amount es (start amount) (start-Inv amount (omega (arith, h)))

  -- Where each write reaches the memory at once and in order (one processor, not the SMP systems of
  -- Peterson.h), Peterson's algorithm keeps the second thread out of the critical section while the
  -- first one is between the end of its wait and the reset of its flag, whatever the schedule and
  -- whatever rand() returns, for a positive amount.
  pub at_most_one :
      (es : List (Bool × ℕ))
      → pos 1 ≤ℤ amount
      → critical (run amount es (start amount)).zeroth.pc ≡ true
      → critical (run amount es (start amount)).first.pc ≡ false
  at_most_one es h c =
      let y = run amount es (start amount) in
      exclusive amount false y.zeroth.pc y.zeroth.flag y.first.pc y.first.flag y.shared
        (reached es h) c

  -- At every moment of every schedule the two accounts and the money on its way from one to the
  -- other add up to the initial amount, and the rich account is not overdrawn, for a positive
  -- amount.
  pub money_is_kept :
      (es : List (Bool × ℕ))
      → pos 1 ≤ℤ amount
      → let y = run amount es (start amount) in
        (y.shared.rich_guy +ℤ y.shared.poor_guy +ℤ (transit y.zeroth.pc +ℤ transit y.first.pc)
          ≡ amount)
        × (pos 0 ≤ℤ y.shared.rich_guy)
  money_is_kept es h = let v = reached es h in (v.kept, v.nonneg)

  all_moved : (r p amount : ℤ) → r +ℤ p +ℤ (pos 0 +ℤ pos 0) ≡ amount → r ≡ pos 0 → p ≡ amount
  all_moved r p amount e z =
      eq_of_parts p amount
        (omega (int_laws, ap pos_part e, ap neg_part e, ap pos_part z, ap neg_part z))

  verdict_lem :
      (y : System)
      → y.shared.rich_guy ≡ pos 0
      → y.shared.poor_guy ≡ amount
      → verdict amount y ≡ true
  unfolding verdict
  verdict_lem y r p = ground arith

  -- Where each write reaches the memory at once and in order (one processor, not the SMP systems of
  -- Peterson.h), the main program never reports BAD TRANSACTIONS DETECTED when both threads have
  -- finished: all the money of the rich account has reached the poor one, for a positive amount.
  pub no_bad_transactions :
      (es : List (Bool × ℕ))
      → pos 1 ≤ℤ amount
      → (run amount es (start amount)).zeroth.pc ≡ finished
      → (run amount es (start amount)).first.pc ≡ finished
      → verdict amount (run amount es (start amount)) ≡ true
  no_bad_transactions es h f g = verdict_lem y empty full
    where
      y : System
      y = run amount es (start amount)

      empty : y.shared.rich_guy ≡ pos 0
      empty = rw f at (reached es h).facts

      full : y.shared.poor_guy ≡ amount
      full =
          all_moved y.shared.rich_guy y.shared.poor_guy amount (rw (f, g) at (reached es h).kept)
            empty
