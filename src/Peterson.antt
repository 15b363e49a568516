-- ===== src/Peterson.antt =====
-- 04-critical_section/bank_transactions_Peterson.c: two threads move money from one account to the
-- other under Peterson's algorithm. Each access to a shared variable is one step, and each write is seen
-- by both threads at once and in order, as on one processor; Peterson/Smp has a machine that delays
-- writes, as the SMP systems do of which Peterson.h warns. `turn` is false for 0 and true for 1; `int`
-- is unbounded. rand() is the argument of a step; the simulated work, the signals and the start at a
-- full second change no shared variable. The simulated work divides by AMOUNT, so the amount is
-- positive in every theorem but that of Peterson/Smp.
pub mod Invariant
pub mod Safety
pub mod Entry
pub mod Alone
pub mod Rounds
pub mod Schedules
pub mod Finish
pub mod Smp
mod Tests
use nnos.Prelude.{ℕ, ◌+◌, ◌%◌, Bool, true, false, not, ◌&&◌, if◌then◌else◌, List, [], ◌∷◌}
use nnos.Prelude.Int.{ℤ, pos, ltb_ℤ, eqb_ℤ, ◌+ℤ◌, ◌-ℤ◌}

-- Where a thread stands, with its local `money` and what it has read.
pub data Pc : Type 0 where
  choose : Pc  -- money = 1 + rand() % 10
  want : (money : ℤ) → Pc  -- flag[self] = true
  yield_turn : (money : ℤ) → Pc  -- turn = !self
  look : (money : ℤ) (counted : Bool) → Pc  -- the wait reads flag[!self]
  weigh : (money : ℤ) (counted : Bool) → Pc  -- and then turn
  compare : (money : ℤ) → Pc  -- money > rich_guy
  clamp : Pc  -- money = rich_guy
  load_rich : (money : ℤ) → Pc
  store_rich : (money r : ℤ) → Pc
  load_poor : (money : ℤ) → Pc
  store_poor : (money p : ℤ) → Pc
  check_rich : Pc  -- done = rich_guy <= 0 || poor_guy >= AMOUNT
  check_poor : Pc
  leave : (fin : Bool) → Pc  -- flag[self] = false
  tally : (fin : Bool) → Pc  -- trans_per_thread[self]++
  finished : Pc

-- what only one thread writes
pub record Side : Type 0 where
  pub pc : Pc
  pub flag : Bool
  pub trans_per_thread : ℕ
  pub waits_per_thread : ℕ

-- what both threads write
pub record Shared : Type 0 where
  pub turn : Bool
  pub rich_guy : ℤ
  pub poor_guy : ℤ

pub record System : Type 0 where
  pub zeroth : Side
  pub first : Side
  pub shared : Shared

infix 50 ◌is◌
abbrev pub ◌is◌ : Bool → Bool → Bool
true is b = b
false is b = not b

abbrev pub leb_ℤ : ℤ → ℤ → Bool
leb_ℤ a b = not (ltb_ℤ b a)

module _ (amount : ℤ) where
  -- The body of bank_transaction with Peterson_prologue and Peterson_epilogue, one step from each
  -- place. `other` is flag[!self].
  unfoldable pub act :
      (self : Bool) (rand : ℕ) → Pc → Side → (other : Bool) → Shared → Side × Shared
  act self rand choose s other g = (record s { pc = want (pos (1 + rand % 10)) }, g)
  act self rand (want m) s other g = (record s { pc = yield_turn m; flag = true }, g)
  act self rand (yield_turn m) s other g =
      (record s { pc = look m false }, record g { turn = not self })
  act self rand (look m c) s other g = (record s { pc = if other then weigh m c else compare m }, g)
  act self rand (weigh m c) s other g = (
    if g.turn is not self
        then record s {
          pc = look m true;
          waits_per_thread = if c then s.waits_per_thread else s.waits_per_thread + 1;
        }
        else record s { pc = compare m },
    g,
  )
  act self rand (compare m) s other g =
      (record s { pc = if ltb_ℤ g.rich_guy m then clamp else load_rich m }, g)
  act self rand clamp s other g = (record s { pc = load_rich g.rich_guy }, g)
  act self rand (load_rich m) s other g = (record s { pc = store_rich m g.rich_guy }, g)
  act self rand (store_rich m r) s other g =
      (record s { pc = load_poor m }, record g { rich_guy = r -ℤ m })
  act self rand (load_poor m) s other g = (record s { pc = store_poor m g.poor_guy }, g)
  act self rand (store_poor m p) s other g =
      (record s { pc = check_rich }, record g { poor_guy = p +ℤ m })
  act self rand check_rich s other g =
      (record s { pc = if leb_ℤ g.rich_guy (pos 0) then leave true else check_poor }, g)
  act self rand check_poor s other g = (record s { pc = leave (leb_ℤ amount g.poor_guy) }, g)
  act self rand (leave fin) s other g = (record s { pc = tally fin; flag = false }, g)
  act self rand (tally fin) s other g = (
    record s { pc = if fin then finished else choose; trans_per_thread = s.trans_per_thread + 1 },
    g,
  )
  act self rand finished s other g = (record s { pc = finished }, g)

  -- The scheduler runs one of the two threads for one step.
  unfoldable pub step : System → Bool × ℕ → System
  step y (false, rand) =
      let (s, g) = act false rand y.zeroth.pc y.zeroth y.first.flag y.shared in
      record { zeroth = s; first = y.first; shared = g }
  step y (true, rand) =
      let (s, g) = act true rand y.first.pc y.first y.zeroth.flag y.shared in
      record { zeroth = y.zeroth; first = s; shared = g }

  unfoldable pub run : List (Bool × ℕ) → System → System
  run [] y = y
  run (e ∷ es) y = run es (step y e)

  abbrev idle : Side
  idle = record { pc = choose; flag = false; trans_per_thread = 0; waits_per_thread = 0 }

  -- main, before the threads start
  abbrev pub start : System
  start = record {
    zeroth = idle;
    first = idle;
    shared = record { turn = false; rich_guy = amount; poor_guy = pos 0 };
  }

-- the verdict of main after the joins: `false` for BAD TRANSACTIONS DETECTED
unfoldable pub verdict : ℤ → System → Bool
verdict amount y = eqb_ℤ y.shared.rich_guy (pos 0) && eqb_ℤ y.shared.poor_guy amount
