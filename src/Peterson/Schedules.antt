-- ===== src/Peterson/Schedules.antt =====
-- Schedules of bank_transactions_Peterson.c that let one thread run to a place.
use nnos.Prelude.{
  ℕ, ◌≡◌, ◌⊎◌, inl, inr, refl, Bool, true, false, not, List, [], ◌∷◌, ◌++◌, ap, sym, ◌∙◌,
}
use mathlib.Core.Path.{subst}
use nnos.Prelude.Int.{ℤ}
use nnos.Peterson.{yield_turn, finished, Side, Shared, System, act, step, run}
use nnos.Peterson.Invariant.{critical}
use nnos.Peterson.Entry.{side_of, waits, waits_from}
use nnos.Peterson.Alone.{alone, To, here, comes_out}
use nnos.Peterson.Rounds.{Done, Ends-alone}

-- steps of one thread only
abbrev only : Bool → List ℕ → List (Bool × ℕ)
only self [] = []
only self (r ∷ rs) = (self, r) ∷ only self rs

module _ (amount : ℤ) where
  -- some schedule leads from `y` to a state with `P`
  pub record Leads (P : System → Type 0) (y : System) : Type 0 where
    pub events : List (Bool × ℕ)
    pub holds : P (run amount events y)

  pub run-append :
      (ds es : List (Bool × ℕ)) (y : System)
      → run amount (ds ++ es) y ≡ run amount es (run amount ds y)
  unfolding run
  run-append [] es y = refl
  run-append (d ∷ ds) es y = run-append ds es (step amount y d)

  -- first to `P`, then on
  pub follow :
      (P Q : System → Type 0) (y : System)
      → Leads P y
      → ((es : List (Bool × ℕ)) → P (run amount es y) → Leads Q (run amount es y))
      → Leads Q y
  follow P Q y p k =
      let q = k p.events p.holds in
      record {
        events = p.events ++ q.events;
        holds = subst Q (sym (run-append p.events q.events y)) q.holds;
      }

  only-alone :
      (self : Bool) (rs : List ℕ) (y : System)
      → let (s, g) = alone amount self (side_of (not self) y).flag rs (side_of self y) y.shared in
        let z = run amount (only self rs) y in
        (side_of self z ≡ s) × (z.shared ≡ g) × (side_of (not self) z ≡ side_of (not self) y)
  unfolding alone run step
  only-alone self [] y = (refl, refl, refl)
  only-alone false (r ∷ rs) y = only-alone false rs (step amount y (false, r))
  only-alone true (r ∷ rs) y = only-alone true rs (step amount y (true, r))

  pub ends_here :
      (self : Bool) (y : System)
      → (side_of (not self) y).flag ≡ false
      → Leads
          (λ z. ((side_of self z).pc ≡ finished) × (side_of (not self) z ≡ side_of (not self) y))
          y
  ends_here self y down =
      let there =
        λ (other : Bool). To amount self other (Done amount self) (side_of self y) y.shared in
      let to : there (side_of (not self) y).flag =
        subst there (sym down) (Ends-alone amount self (side_of self y).pc _ _ refl) in
      let (mine, _, theirs) = only-alone self to.rands y in
      record { events = only self to.rands; holds = (ap (λ s. s.pc) mine ∙ to.holds, theirs) }

  pub comes_down :
      (self : Bool) (y : System)
      → critical (side_of self y).pc ≡ true
      → Leads (λ z. (side_of self z).flag ≡ false) y
  comes_down self y c =
      let other = (side_of (not self) y).flag in
      let down = λ (t : Side) (h : Shared). t.flag ≡ false in
      let to =
        comes_out amount self other down (side_of self y).pc (side_of self y) y.shared refl c
          (λ t h fin _ d. here amount self other down t h d) in
      let (mine, _, _) = only-alone self to.rands y in
      record { events = only self to.rands; holds = ap (λ s. s.flag) mine ∙ to.holds }

  -- a thread that waits and has the turn gets in and comes out
  pub waits_down :
      (self : Bool) (y : System)
      → waits (side_of self y).pc ≡ true
      → y.shared.turn ≡ self
      → Leads (λ z. (side_of self z).flag ≡ false) y
  waits_down self y w turn =
      follow (λ z. critical (side_of self z).pc ≡ true) (λ z. (side_of self z).flag ≡ false) y
        (record {
          events = (self, 0) ∷ (self, 0) ∷ (self, 0) ∷ [];
          holds = waits_from amount self 0 0 0 (side_of self y).pc y refl w (inr turn);
        })
        (λ es. comes_down self (run amount es y))

  -- a competing thread is in the critical section or comes to wait
  pub comes_to_wait :
      (self : Bool) (y : System)
      → (waits (side_of self y).pc ≡ true) ⊎ ((m : ℤ) × ((side_of self y).pc ≡ yield_turn m))
      → Leads
          (λ z. (waits (side_of self z).pc ≡ true) × (side_of (not self) z ≡ side_of (not self) y))
          y
  unfolding run step act
  comes_to_wait self y (inl w) = record { events = []; holds = (w, refl) }
  comes_to_wait false y (inr (m, e)) = record {
    events = (false, 0) ∷ [];
    holds = (rw e refl, refl);
  }
  comes_to_wait true y (inr (m, e)) = record { events = (true, 0) ∷ []; holds = (rw e refl, refl) }
