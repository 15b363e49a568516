-- ===== src/Peterson/Smp.antt =====
-- 04-critical_section/bank_transactions_Peterson.c on a machine with several processors, whose writes
-- wait in a buffer of the processor before they reach the memory, as on x86. The variables of the file
-- are plain `volatile` ones, and nothing empties the buffer. A thread sees its own writes at once.
use nnos.Prelude.{ℕ, Bool, true, false, List, [], ◌∷◌, ◌++◌}
use nnos.Prelude.Int.{ℤ, pos}
use nnos.Peterson.{Pc, choose, want, yield_turn, store_rich, store_poor, leave, Side, Shared, act}

pub data Write : Type 0 where
  set_flag set_turn : Bool → Write
  set_rich set_poor : ℤ → Write

-- one processor, with the thread on it: `visible_flag` is its flag in the memory
pub record Processor : Type 0 where
  pub side : Side
  pub visible_flag : Bool
  pub pending : List Write

pub record Machine : Type 0 where
  pub zeroth : Processor
  pub first : Processor
  pub memory : Shared

abbrev write_shared : Write → Shared → Shared
write_shared (set_flag b) g = g
write_shared (set_turn b) g = record g { turn = b }
write_shared (set_rich n) g = record g { rich_guy = n }
write_shared (set_poor n) g = record g { poor_guy = n }

abbrev write_flag : Write → Bool → Bool
write_flag (set_flag b) f = b
write_flag _ f = f

-- the shared variables as a thread reads them, with its own writes from the oldest on
unfoldable pub seen : List Write → Shared → Shared
seen [] g = g
seen (w ∷ ws) g = seen ws (write_shared w g)

-- what a thread writes in the step that it makes from its place
abbrev written : Pc → Side → Shared → List Write
written (want m) s g = set_flag s.flag ∷ []
written (yield_turn m) s g = set_turn g.turn ∷ []
written (store_rich m r) s g = set_rich g.rich_guy ∷ []
written (store_poor m p) s g = set_poor g.poor_guy ∷ []
written (leave fin) s g = set_flag s.flag ∷ []
written _ s g = []

-- a step of the thread, which reads the flag of the other one from the memory
unfoldable pub run_thread :
    (amount : ℤ) (self : Bool) (rand : ℕ) → Processor → (other : Bool) → Shared → Processor
run_thread amount self rand p other g =
    let (s, h) = act amount self rand p.side.pc p.side other (seen p.pending g) in
    record p { side = s; pending = p.pending ++ written p.side.pc s h }

-- the oldest write reaches the memory
unfoldable pub drain : Processor → Shared → Processor × Shared
drain p g = elim p.pending [
  | [] ↦ (p, g)
  | w ∷ ws ↦
      (record p { pending = ws; visible_flag = write_flag w p.visible_flag }, write_shared w g)
]

-- a step of a thread, with what rand() returns, or of the buffer of its processor
pub data Event : Type 0 where
  thread : (self : Bool) (rand : ℕ) → Event
  buffer : (self : Bool) → Event

unfoldable pub smp_step : ℤ → Machine → Event → Machine
smp_step a y (thread false r) = record y {
  zeroth = run_thread a false r y.zeroth y.first.visible_flag y.memory;
}
smp_step a y (thread true r) = record y {
  first = run_thread a true r y.first y.zeroth.visible_flag y.memory;
}
smp_step a y (buffer false) =
    let (p, g) = drain y.zeroth y.memory in record y { zeroth = p; memory = g }
smp_step a y (buffer true) =
    let (p, g) = drain y.first y.memory in record y { first = p; memory = g }

unfoldable pub smp_run : ℤ → List Event → Machine → Machine
smp_run a [] y = y
smp_run a (e ∷ es) y = smp_run a es (smp_step a y e)

abbrev idle : Processor
idle = record {
  side = record { pc = choose; flag = false; trans_per_thread = 0; waits_per_thread = 0 };
  visible_flag = false;
  pending = [];
}

abbrev pub smp_start : ℤ → Machine
smp_start amount = record {
  zeroth = idle;
  first = idle;
  memory = record { turn = false; rich_guy = amount; poor_guy = pos 0 };
}

-- each thread goes through its prologue before the other one's flag has reached the memory
abbrev pub both_prologues : (r q : ℕ) → List Event
both_prologues r q =
    thread false r
    ∷ thread false r
    ∷ thread false r
    ∷ thread false r
    ∷ thread true q
    ∷ thread true q
    ∷ thread true q
    ∷ thread true q
    ∷ []
