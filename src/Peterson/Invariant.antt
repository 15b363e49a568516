-- ===== src/Peterson/Invariant.antt =====
-- What holds between two steps of the two threads, seen from either of them.
use nnos.Prelude.{
  ℕ, ◌≡◌, ◌∙◌, ap, refl, Bool, true, false, not, ◌&&◌, inl, inr, arith, List, [], ◌∷◌, Bool-cases,
}
use nnos.Prelude.Int.{ℤ, pos, ◌+ℤ◌, ◌-ℤ◌, ◌≤ℤ◌, int_laws, eq_of_parts, pos_part, neg_part}
use nnos.Peterson.{
  Pc, choose, want, yield_turn, look, weigh, compare, clamp, load_rich, store_rich, load_poor,
  store_poor, check_rich, check_poor, leave, tally, finished, Side, Shared, System, act, step, run,
  start, ◌is◌, leb_ℤ,
}

le_of_leb : (a b : ℤ) → leb_ℤ a b ≡ true → a ≤ℤ b
le_of_leb a b h = ground arith

-- between the end of the wait and the reset of the flag
abbrev pub critical : Pc → Bool
critical choose = false
critical (want _) = false
critical (yield_turn _) = false
critical (look _ _) = false
critical (weigh _ _) = false
critical (tally _) = false
critical finished = false
critical _ = true

-- after the write of `turn`
abbrev pub past : Pc → Bool
past (look _ _) = true
past (weigh _ _) = true
past p = critical p

abbrev pub raised : Pc → Bool
raised (yield_turn _) = true
raised p = past p

-- money that has left one account and not reached the other
abbrev pub transit : Pc → ℤ
transit (load_poor m) = m
transit (store_poor m p) = m
transit _ = pos 0

-- what the locals of a thread say of the accounts
abbrev pub Facts : Shared → Pc → Type 0
Facts g (want m) = pos 0 ≤ℤ m
Facts g (yield_turn m) = pos 0 ≤ℤ m
Facts g (look m _) = pos 0 ≤ℤ m
Facts g (weigh m _) = pos 0 ≤ℤ m
Facts g (compare m) = pos 0 ≤ℤ m
Facts g (load_rich m) = (pos 0 ≤ℤ m) × (m ≤ℤ g.rich_guy)
Facts g (store_rich m r) = (pos 0 ≤ℤ m) × (m ≤ℤ r) × (r ≡ g.rich_guy)
Facts g (load_poor m) = pos 0 ≤ℤ m
Facts g (store_poor m p) = (pos 0 ≤ℤ m) × (p ≡ g.poor_guy)
Facts g (leave true) = g.rich_guy ≡ pos 0
Facts g (tally true) = g.rich_guy ≡ pos 0
Facts g finished = g.rich_guy ≡ pos 0
Facts g _ = Unit

emptied :
    (r p t amount : ℤ)
    → pos 0 ≤ℤ r
    → r +ℤ p +ℤ (pos 0 +ℤ t) ≡ amount
    → leb_ℤ amount p ≡ true
    → t ≡ pos 0
    → r ≡ pos 0
emptied r p t amount h e l z = eq_of_parts r (pos 0) (
    omega (
      int_laws,
      h,
      le_of_leb amount p l,
      ap pos_part e,
      ap neg_part e,
      ap pos_part z,
      ap neg_part z,
    ))

sum_flip : (a b c : ℤ) → a +ℤ (c +ℤ b) ≡ a +ℤ (b +ℤ c)
sum_flip a b c = eq_of_parts (a +ℤ (c +ℤ b)) (a +ℤ (b +ℤ c)) (omega int_laws)

whole : (a : ℤ) → a +ℤ pos 0 +ℤ (pos 0 +ℤ pos 0) ≡ a
whole a = eq_of_parts (a +ℤ pos 0 +ℤ (pos 0 +ℤ pos 0)) a (omega int_laws)

module _ (amount : ℤ) where
  -- The thread `self` is at `p` with its flag `f`, the other one at `q` with its flag `h`.
  pub record Inv (self : Bool) (p : Pc) (f : Bool) (q : Pc) (h : Bool) (g : Shared) : Type 0 where
    pub flagged : f ≡ raised p
    pub other_flagged : h ≡ raised q
    pub facts : Facts g p
    pub other_facts : Facts g q
    pub mine : (critical p && past q && not (g.turn is self)) ≡ false
    pub theirs : (critical q && past p && (g.turn is self)) ≡ false
    pub nonneg : pos 0 ≤ℤ g.rich_guy
    pub kept : g.rich_guy +ℤ g.poor_guy +ℤ (transit p +ℤ transit q) ≡ amount

  -- facts of a thread outside the critical section, after the other one has changed an account
  quiet-Facts :
      (g g' : Shared) (q : Pc)
      → critical q ≡ false
      → (g.rich_guy ≡ pos 0 → g'.rich_guy ≡ pos 0)
      → Facts g q
      → Facts g' q
  quiet-Facts g g' (tally true) e k f = k f
  quiet-Facts g g' (tally false) e k f = tt
  quiet-Facts g g' finished e k f = k f
  quiet-Facts g g' (leave fin) e k f = cc
  quiet-Facts g g' q e k f = ground arith

  critical-past : (q : Pc) → critical q ≡ true → past q ≡ true
  critical-past choose e = cc
  critical-past q e = ground arith

  quiet_transit : (q : Pc) → critical q ≡ false → transit q ≡ pos 0
  quiet_transit choose e = refl
  quiet_transit q e = ground arith

  -- Peterson's argument: the turn lets in one of two threads that are past it.
  pub exclusive :
      (self : Bool) (p : Pc) (f : Bool) (q : Pc) (h : Bool) (g : Shared)
      → Inv self p f q h g
      → critical p ≡ true
      → critical q ≡ false
  exclusive self p f q h g v e = elim (Bool-cases (critical q)) [
    | inl c ↦ ground (arith, critical-past p e, critical-past q c)
    | inr n ↦ n
  ]

  Inv-act :
      (self : Bool) (rand : ℕ) (p : Pc) (s : Side) (q : Pc) (h : Bool) (g : Shared)
      → Inv self p s.flag q h g
      → let (t, g') = act amount self rand p s h g in Inv self t.pc t.flag q h g'
  unfolding act
  Inv-act self rand choose s q h g v = ground arith
  Inv-act self rand (want m) s q h g v = ground arith
  Inv-act self rand (yield_turn m) s q h g v = ground arith
  Inv-act self rand (look m c) s q h g v = ground arith
  Inv-act self rand (weigh m c) s q h g v = ground arith
  Inv-act self rand (compare m) s q h g v = ground arith
  Inv-act self rand clamp s q h g v = ground arith
  Inv-act self rand (load_rich m) s q h g v = ground arith
  Inv-act self rand (store_rich m r) s q h g v =
      let quiet : critical q ≡ false = exclusive self (store_rich m r) s.flag q h g v refl in
      record {
        flagged = v.flagged;
        other_flagged = v.other_flagged;
        facts = v.facts.0;
        other_facts =
            quiet-Facts g (record g { rich_guy = r -ℤ m }) q quiet
              (λ z. omega (
                int_laws,
                v.facts,
                ap pos_part z,
                ap neg_part z,
                ap pos_part v.facts.2,
                ap neg_part v.facts.2,
              ))
              v.other_facts;
        mine = v.mine;
        theirs = v.theirs;
        nonneg = omega (int_laws, v.facts);
        kept = omega (
          int_laws,
          ap pos_part v.kept,
          ap neg_part v.kept,
          ap pos_part v.facts.2,
          ap neg_part v.facts.2,
        );
      }
  Inv-act self rand (load_poor m) s q h g v = ground arith
  Inv-act self rand (store_poor m p) s q h g v =
      let quiet : critical q ≡ false = exclusive self (store_poor m p) s.flag q h g v refl in
      record {
        flagged = v.flagged;
        other_flagged = v.other_flagged;
        facts = tt;
        other_facts = quiet-Facts g (record g { poor_guy = p +ℤ m }) q quiet (λ z. z) v.other_facts;
        mine = v.mine;
        theirs = v.theirs;
        nonneg = v.nonneg;
        kept = omega (
          int_laws,
          ap pos_part v.kept,
          ap neg_part v.kept,
          ap pos_part v.facts.1,
          ap neg_part v.facts.1,
        );
      }
  Inv-act self rand check_rich s q h g v = ground arith
  Inv-act self rand check_poor s q h g v = elim (Bool-cases (leb_ℤ amount g.poor_guy)) [
    | inl e ↦
        let none_left =
          emptied g.rich_guy g.poor_guy (transit q) amount v.nonneg v.kept e
            (quiet_transit q (exclusive self check_poor s.flag q h g v refl)) in
        rw e (ground (arith, none_left))
    | inr e ↦ rw e (ground arith)
  ]
  Inv-act self rand (leave true) s q h g v = ground arith
  Inv-act self rand (leave false) s q h g v = ground arith
  Inv-act self rand (tally true) s q h g v = ground arith
  Inv-act self rand (tally false) s q h g v = ground arith
  Inv-act self rand finished s q h g v = ground arith

  -- the view of the other thread
  Inv-flip :
      (self : Bool) (p : Pc) (f : Bool) (q : Pc) (h : Bool) (g : Shared)
      → Inv self p f q h g
      → Inv (not self) q h p f g
  Inv-flip true p f q h g v = record {
    flagged = v.other_flagged;
    other_flagged = v.flagged;
    facts = v.other_facts;
    other_facts = v.facts;
    mine = ground (arith, v.theirs);
    theirs = ground (arith, v.mine);
    nonneg = v.nonneg;
    kept = sum_flip (g.rich_guy +ℤ g.poor_guy) (transit p) (transit q) ∙ v.kept;
  }
  Inv-flip false p f q h g v = record {
    flagged = v.other_flagged;
    other_flagged = v.flagged;
    facts = v.other_facts;
    other_facts = v.facts;
    mine = ground (arith, v.theirs);
    theirs = ground (arith, v.mine);
    nonneg = v.nonneg;
    kept = sum_flip (g.rich_guy +ℤ g.poor_guy) (transit p) (transit q) ∙ v.kept;
  }

  -- the invariant of the system, as the zeroth thread sees it
  abbrev pub SysInv : System → Type 0
  SysInv y = Inv false y.zeroth.pc y.zeroth.flag y.first.pc y.first.flag y.shared

  pub start-Inv : pos 0 ≤ℤ amount → SysInv (start amount)
  start-Inv h = record {
    flagged = refl;
    other_flagged = refl;
    facts = tt;
    other_facts = tt;
    mine = refl;
    theirs = refl;
    nonneg = h;
    kept = whole amount;
  }

  step-Inv : (y : System) (e : Bool × ℕ) → SysInv y → SysInv (step amount y e)
  unfolding step
  step-Inv y (false, rand) v =
      Inv-act false rand y.zeroth.pc y.zeroth y.first.pc y.first.flag y.shared v
  step-Inv y (true, rand) v =
      let (s, g) = act amount true rand y.first.pc y.first y.zeroth.flag y.shared in
      Inv-flip true s.pc s.flag y.zeroth.pc y.zeroth.flag g (
        Inv-act true rand y.first.pc y.first y.zeroth.pc y.zeroth.flag y.shared
          (Inv-flip false y.zeroth.pc y.zeroth.flag y.first.pc y.first.flag y.shared v))

  pub run-Inv : (es : List (Bool × ℕ)) (y : System) → SysInv y → SysInv (run amount es y)
  unfolding run
  run-Inv [] y v = v
  run-Inv (e ∷ es) y v = run-Inv es (step amount y e) (step-Inv y e v)
