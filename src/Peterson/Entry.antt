-- ===== src/Peterson/Entry.antt =====
-- When Peterson's algorithm lets a waiting thread in.
use nnos.Prelude.{ℕ, ◌≡◌, ◌⊎◌, inl, inr, refl, Bool, true, false, not, [], ◌∷◌, arith}
use nnos.Prelude.Int.{ℤ}
use nnos.Peterson.{Pc, look, weigh, Side, System, act, step, run}
use nnos.Peterson.Invariant.{critical}

abbrev pub side_of : Bool → System → Side
side_of false y = y.zeroth
side_of true y = y.first

-- inside the loop of Peterson_prologue
abbrev pub waits : Pc → Bool
waits (look _ _) = true
waits (weigh _ _) = true
waits _ = false

module _ (amount : ℤ) where
  pub waits_from :
      (self : Bool) (r₁ r₂ r₃ : ℕ) (pc : Pc) (y : System)
      → (side_of self y).pc ≡ pc
      → waits pc ≡ true
      → ((side_of (not self) y).flag ≡ false) ⊎ (y.shared.turn ≡ self)
      → critical (side_of self (run amount ((self, r₁) ∷ (self, r₂) ∷ (self, r₃) ∷ []) y)).pc ≡ true
  unfolding run step act
  waits_from false r₁ r₂ r₃ (look m c) y e w h = elim h [
    | inl down ↦ rw (e, down) (ground arith)
    | inr mine ↦ rw (e, mine) (ground arith)
  ]
  waits_from true r₁ r₂ r₃ (look m c) y e w h = elim h [
    | inl down ↦ rw (e, down) (ground arith)
    | inr mine ↦ rw (e, mine) (ground arith)
  ]
  waits_from false r₁ r₂ r₃ (weigh m c) y e w h = elim h [
    | inl down ↦ rw (e, down) (ground arith)
    | inr mine ↦ rw (e, mine) (ground arith)
  ]
  waits_from true r₁ r₂ r₃ (weigh m c) y e w h = elim h [
    | inl down ↦ rw (e, down) (ground arith)
    | inr mine ↦ rw (e, mine) (ground arith)
  ]
  waits_from self r₁ r₂ r₃ pc y e w h = absurd (cc)

  -- A thread in the loop of Peterson_prologue is past it after at most three steps of its own, if
  -- meanwhile the other one does not move, and the other one's flag is down or `turn` names the thread
  -- itself.
  pub waiting_enters :
      (self : Bool) (r₁ r₂ r₃ : ℕ) (y : System)
      → waits (side_of self y).pc ≡ true
      → ((side_of (not self) y).flag ≡ false) ⊎ (y.shared.turn ≡ self)
      → critical (side_of self (run amount ((self, r₁) ∷ (self, r₂) ∷ (self, r₃) ∷ []) y)).pc ≡ true
  waiting_enters self r₁ r₂ r₃ y = waits_from self r₁ r₂ r₃ (side_of self y).pc y refl
