-- ===== src/Peterson/Rounds.antt =====
-- A thread of bank_transactions_Peterson.c whose opponent does not compete comes to its end.
use nnos.Prelude.{
  ℕ, zero, suc, ◌≤◌, ◌≡◌, ◌⊎◌, inl, inr, refl, Bool, true, false, not, if◌then◌else◌, arith, ap,
  sym, ◌∙◌, Bool-cases,
}
use mathlib.Core.Path.{subst}
use nnos.Prelude.Int.{ℤ, pos, ◌-ℤ◌, ltb_ℤ, pos_part}
use nnos.Peterson.{
  Pc, choose, want, yield_turn, look, weigh, compare, tally, finished, Side, Shared, act, ◌is◌,
  leb_ℤ,
}
use nnos.Peterson.Invariant.{critical}
use nnos.Peterson.Alone.{To, here, after_step, from_compare, comes_out}

-- What is left of the money after a withdrawal of 1 is less, or nothing.
less_left :
    (n : ℕ) (rich : ℤ)
    → pos_part rich ≤ suc n
    → (leb_ℤ (rich -ℤ (if ltb_ℤ rich (pos 1) then rich else pos 1)) (pos 0) ≡ true)
      ⊎ (pos_part (rich -ℤ (if ltb_ℤ rich (pos 1) then rich else pos 1)) ≤ n)
unfolding ◌-ℤ◌
less_left n rich le = ground arith

none_left :
    (rich : ℤ)
    → pos_part rich ≤ 0
    → leb_ℤ (rich -ℤ (if ltb_ℤ rich (pos 1) then rich else pos 1)) (pos 0) ≡ true
unfolding ◌-ℤ◌
none_left rich le = ground arith

module _ (amount : ℤ) (self : Bool) where
  abbrev pub Done : Side → Shared → Type 0
  Done t h = t.pc ≡ finished

  -- the other thread's flag is down
  abbrev pub Ends : Side → Shared → Type 0
  Ends s g = To amount self false Done s g

  last_round : (s : Side) (g : Shared) → s.pc ≡ tally true → Ends s g
  unfolding act
  last_round s g e =
      after_step amount self false Done 0 s g (tally true) e (here amount self false Done _ _ refl)

  -- what a round needs from its end on
  abbrev Later : ℕ → Type 0
  Later n = (s : Side) (g : Shared) → s.pc ≡ choose → pos_part g.rich_guy ≤ n → Ends s g

  next_round :
      (s : Side) (g : Shared) (n : ℕ)
      → s.pc ≡ tally false
      → pos_part g.rich_guy ≤ n
      → Later n
      → Ends s g
  unfolding act
  next_round s g n e le k = after_step amount self false Done 0 s g (tally false) e (k _ g refl le)

  -- one round from its start, with an amount of 1
  to_compare :
      (s : Side) (g : Shared)
      → s.pc ≡ choose
      → ((t : Side) (h : Shared) → t.pc ≡ compare (pos 1) → h.rich_guy ≡ g.rich_guy → Ends t h)
      → Ends s g
  unfolding act
  to_compare s g e k = after_step amount self false Done 0 s g choose e (
      after_step amount self false Done 0 _ g (want (pos 1)) refl (
        after_step amount self false Done 0 _ g (yield_turn (pos 1)) refl
          (after_step amount self false Done 0 _ _ (look (pos 1) false) refl (k _ _ refl refl))))

  -- With 1 as the amount of each round, the rich account is empty after as many as it has money.
  all_rounds : (n : ℕ) → Later n
  all_rounds zero s g e le = to_compare s g e (λ t h at same.
      from_compare amount self false Done t h (pos 1) at (λ u i fin tallied _ _ empty.
        last_round u i
          (tallied ∙ ap tally (empty (none_left h.rich_guy (ground (arith, same, le)))))))
  all_rounds (suc n) s g e le = to_compare s g e (λ t h at same.
      from_compare amount self false Done t h (pos 1) at (λ u i fin tallied _ rich empty.
        elim (less_left n h.rich_guy (ground (arith, same, le))) [
          | inl none ↦ last_round u i (tallied ∙ ap tally (empty none))
          | inr less ↦ elim (Bool-cases fin) [
            | inl last ↦ last_round u i (tallied ∙ ap tally last)
            | inr more ↦
                next_round u i n (tallied ∙ ap tally more)
                  (subst (λ r. pos_part r ≤ n) (sym rich) less) (all_rounds n)
          ]
        ]))

  from_tally : (s : Side) (g : Shared) (fin : Bool) → s.pc ≡ tally fin → Ends s g
  from_tally s g true e = last_round s g e
  from_tally s g false e =
      next_round s g (pos_part g.rich_guy) e (omega arith) (all_rounds (pos_part g.rich_guy))

  from_critical : (s : Side) (g : Shared) (pc : Pc) → s.pc ≡ pc → critical pc ≡ true → Ends s g
  from_critical s g pc e c =
      comes_out amount self false Done pc s g e c (λ t h fin at _. from_tally t h fin at)

  from_look : (s : Side) (g : Shared) (m : ℤ) (counted : Bool) → s.pc ≡ look m counted → Ends s g
  unfolding act
  from_look s g m counted e =
      after_step amount self false Done 0 s g (look m counted) e
        (from_critical _ g (compare m) refl refl)

  from_weigh : (s : Side) (g : Shared) (m : ℤ) (counted : Bool) → s.pc ≡ weigh m counted → Ends s g
  unfolding act
  from_weigh s g m counted e =
      after_step amount self false Done 0 s g (weigh m counted) e
        (elim (Bool-cases (g.turn is not self)) [
          | inl theirs ↦ rw theirs (from_look _ g m true refl)
          | inr mine ↦ rw mine (from_critical _ g (compare m) refl refl)
        ])

  from_yield : (s : Side) (g : Shared) (m : ℤ) → s.pc ≡ yield_turn m → Ends s g
  unfolding act
  from_yield s g m e =
      after_step amount self false Done 0 s g (yield_turn m) e (from_look _ _ m false refl)

  -- A thread whose opponent's flag is down finishes, wherever it stands.
  pub Ends-alone : (pc : Pc) (s : Side) (g : Shared) → s.pc ≡ pc → Ends s g
  unfolding act
  Ends-alone choose s g e = all_rounds (pos_part g.rich_guy) s g e (omega arith)
  Ends-alone (want m) s g e =
      after_step amount self false Done 0 s g (want m) e (from_yield _ g m refl)
  Ends-alone (yield_turn m) s g e = from_yield s g m e
  Ends-alone (look m counted) s g e = from_look s g m counted e
  Ends-alone (weigh m counted) s g e = from_weigh s g m counted e
  Ends-alone (tally fin) s g e = from_tally s g fin e
  Ends-alone finished s g e = here amount self false Done s g e
  Ends-alone pc s g e = from_critical s g pc e refl
