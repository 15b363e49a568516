-- ===== src/Peterson/Finish.antt =====
-- From every state of bank_transactions_Peterson.c both threads can finish.
use nnos.Prelude.{
  ℕ, ◌≡◌, ◌⊎◌, inl, inr, refl, Bool, true, false, List, [], ◌++◌, arith, ap, sym, ◌∙◌, Bool-cases,
}
use mathlib.Core.Path.{subst}
use nnos.Prelude.Int.{ℤ, pos, ◌≤ℤ◌}
use nnos.Peterson.{Pc, yield_turn, look, weigh, finished, System, run, start, verdict}
use nnos.Peterson.Invariant.{critical, raised, SysInv, run-Inv, start-Inv}
use nnos.Peterson.Entry.{waits}
use nnos.Peterson.Schedules.{
  Leads, run-append, follow, ends_here, comes_down, waits_down, comes_to_wait,
}
use nnos.Peterson.Safety.{no_bad_transactions}

module _ (amount : ℤ) where
  Competes : Pc → Type 0
  Competes p = (critical p ≡ true) ⊎ ((waits p ≡ true) ⊎ ((m : ℤ) × (p ≡ yield_turn m)))

  raised-Competes : (p : Pc) → raised p ≡ true → Competes p
  unfolding Competes
  raised-Competes (yield_turn m) r = inr (inr (m, refl))
  raised-Competes (look m c) r = inr (inl refl)
  raised-Competes (weigh m c) r = inr (inl refl)
  raised-Competes p r = inl r

  -- one of the two flags is down
  OneDown : System → Type 0
  OneDown z = (z.zeroth.flag ≡ false) ⊎ (z.first.flag ≡ false)

  weaken :
      (P Q : System → Type 0) (y : System)
      → ((z : System) → P z → Q z)
      → Leads amount P y
      → Leads amount Q y
  weaken P Q y k p = record { events = p.events; holds = k _ p.holds }

  zeroth_down : (y : System) → Leads amount (λ z. z.zeroth.flag ≡ false) y → Leads amount OneDown y
  unfolding OneDown
  zeroth_down y = weaken (λ z. z.zeroth.flag ≡ false) OneDown y (λ z h. inl h)

  first_down : (y : System) → Leads amount (λ z. z.first.flag ≡ false) y → Leads amount OneDown y
  unfolding OneDown
  first_down y = weaken (λ z. z.first.flag ≡ false) OneDown y (λ z h. inr h)

  abbrev BothWait : System → Type 0
  BothWait z = (waits z.zeroth.pc ≡ true) × (waits z.first.pc ≡ true)

  both_wait : (y : System) → BothWait y → Leads amount OneDown y
  both_wait y (w, v) = elim (Bool-cases y.shared.turn) [
    | inl turn ↦ first_down y (waits_down amount true y v turn)
    | inr turn ↦ zeroth_down y (waits_down amount false y w turn)
  ]

  abbrev Asks : Pc → Type 0
  Asks p = (waits p ≡ true) ⊎ ((m : ℤ) × (p ≡ yield_turn m))

  both_ask : (y : System) → Asks y.zeroth.pc → Asks y.first.pc → Leads amount OneDown y
  both_ask y a b =
      follow amount (λ z. (waits z.zeroth.pc ≡ true) × (z.first ≡ y.first)) OneDown y
        (comes_to_wait amount false y a)
        (λ es (w, same).
          let z = run amount es y in
          follow amount (λ x. (waits x.first.pc ≡ true) × (x.zeroth ≡ z.zeroth)) OneDown z
            (comes_to_wait amount true z (subst (λ s. Asks s.pc) (sym same) b))
            (λ ds (v, kept).
              both_wait (run amount ds z) (subst (λ s. waits s.pc ≡ true) (sym kept) w, v)))

  both_compete : (y : System) → Competes y.zeroth.pc → Competes y.first.pc → Leads amount OneDown y
  unfolding Competes
  both_compete y (inl c) b = zeroth_down y (comes_down amount false y c)
  both_compete y (inr a) (inl c) = first_down y (comes_down amount true y c)
  both_compete y (inr a) (inr b) = both_ask y a b

  one_down : (y : System) → SysInv amount y → Leads amount OneDown y
  unfolding OneDown run
  one_down y v = elim (Bool-cases y.zeroth.flag) [
    | inr down ↦ record { events = []; holds = inl down }
    | inl up ↦ elim (Bool-cases y.first.flag) [
      | inr down ↦ record { events = []; holds = inr down }
      | inl up' ↦
          both_compete y (raised-Competes y.zeroth.pc (sym v.flagged ∙ up))
            (raised-Competes y.first.pc (sym v.other_flagged ∙ up'))
    ]
  ]

  abbrev pub BothFinished : System → Type 0
  BothFinished z = (z.zeroth.pc ≡ finished) × (z.first.pc ≡ finished)

  first_then_zeroth :
      (y : System) → SysInv amount y → y.zeroth.flag ≡ false → Leads amount BothFinished y
  first_then_zeroth y v down =
      follow amount (λ z. (z.first.pc ≡ finished) × (z.zeroth ≡ y.zeroth)) BothFinished y
        (ends_here amount true y down)
        (λ es (fin, _).
          let z = run amount es y in
          let w = run-Inv amount es y v in
          weaken (λ x. (x.zeroth.pc ≡ finished) × (x.first ≡ z.first)) BothFinished z
            (λ x (a, b). (a, ap (λ s. s.pc) b ∙ fin))
            (ends_here amount false z (w.other_flagged ∙ ap raised fin)))

  zeroth_then_first :
      (y : System) → SysInv amount y → y.first.flag ≡ false → Leads amount BothFinished y
  zeroth_then_first y v down =
      follow amount (λ z. (z.zeroth.pc ≡ finished) × (z.first ≡ y.first)) BothFinished y
        (ends_here amount false y down)
        (λ es (fin, _).
          let z = run amount es y in
          let w = run-Inv amount es y v in
          weaken (λ x. (x.first.pc ≡ finished) × (x.zeroth ≡ z.zeroth)) BothFinished z
            (λ x (a, b). (ap (λ s. s.pc) b ∙ fin, a))
            (ends_here amount true z (w.flagged ∙ ap raised fin)))

  finish : (y : System) → SysInv amount y → Leads amount BothFinished y
  unfolding OneDown
  finish y v = follow amount OneDown BothFinished y (one_down y v) (λ es h.
      let w = run-Inv amount es y v in
      elim h [
        | inl down ↦ first_then_zeroth (run amount es y) w down
        | inr down ↦ zeroth_then_first (run amount es y) w down
      ])

  -- Where each write reaches the memory at once and in order (one processor, not the SMP systems of
  -- Peterson.h), every schedule can be continued until both threads have finished, and then the
  -- verdict of main is that the transactions are good, for a positive amount: no deadlock.
  pub both_can_finish :
      (ds : List (Bool × ℕ))
      → pos 1 ≤ℤ amount
      → (es : List (Bool × ℕ)) × (let y = run amount (ds ++ es) (start amount) in
          (y.zeroth.pc ≡ finished) × (y.first.pc ≡ finished) × (verdict amount y ≡ true))
  both_can_finish ds h =
      let v = run-Inv amount ds (start amount) (start-Inv amount (omega (arith, h))) in
      let f = finish (run amount ds (start amount)) v in
      let same = run-append amount ds f.events (start amount) in
      let (a, b) = subst BothFinished (sym same) f.holds in
      (f.events, (a, b, no_bad_transactions amount (ds ++ f.events) h a b))
