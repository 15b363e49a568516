-- ===== src/Peterson/Alone.antt =====
-- One thread of bank_transactions_Peterson.c while the other one does not move.
use nnos.Prelude.{
  ℕ, ◌≡◌, inl, inr, refl, Bool, true, false, if◌then◌else◌, List, [], ◌∷◌, arith, sym, Bool-cases,
}
use mathlib.Core.Path.{subst}
use nnos.Prelude.Int.{ℤ, pos, ◌-ℤ◌, ltb_ℤ}
use nnos.Peterson.{
  Pc, compare, clamp, load_rich, store_rich, load_poor, store_poor, check_rich, check_poor, leave,
  tally, Side, Shared, act, leb_ℤ,
}
use nnos.Peterson.Invariant.{critical}

module _ (amount : ℤ) (self other : Bool) where
  -- the thread's own steps, one for each result of rand
  unfoldable pub alone : List ℕ → Side → Shared → Side × Shared
  alone [] s g = (s, g)
  alone (r ∷ rs) s g = let (t, h) = act amount self r s.pc s other g in alone rs t h

  -- some steps of the thread lead to `P`
  pub record To (P : Side → Shared → Type 0) (s : Side) (g : Shared) : Type 0 where
    pub rands : List ℕ
    pub holds : P (alone rands s g).0 (alone rands s g).1

  pub here : (P : Side → Shared → Type 0) (s : Side) (g : Shared) → P s g → To P s g
  unfolding alone
  here P s g p = record { rands = []; holds = p }

  module _ (P : Side → Shared → Type 0) where
    -- one step, with `r` from rand
    pub after_step :
        (r : ℕ) (s : Side) (g : Shared) (pc : Pc)
        → s.pc ≡ pc
        → (let (t, h) = act amount self r pc s other g in To P t h)
        → To P s g
    unfolding alone
    after_step r s g pc e to =
        let own =
          subst (λ q. (let (t, h) = act amount self r q s other g in To P t h)) (sym e) to in
        record { rands = r ∷ own.rands; holds = own.holds }

    -- From a place in the critical section a thread comes to the end of its round. What follows may
    -- rely on the rich account as the round leaves it.
    abbrev pub Ahead : ℤ → Type 0
    Ahead rich =
        (t : Side) (h : Shared) (fin : Bool)
        → t.pc ≡ tally fin
        → t.flag ≡ false
        → h.rich_guy ≡ rich
        → (leb_ℤ rich (pos 0) ≡ true → fin ≡ true)
        → To P t h

    from_leave :
        (s : Side) (g : Shared) (fin : Bool)
        → s.pc ≡ leave fin
        → (leb_ℤ g.rich_guy (pos 0) ≡ true → fin ≡ true)
        → Ahead g.rich_guy
        → To P s g
    unfolding act
    from_leave s g fin e empty k = after_step 0 s g (leave fin) e (k _ g fin refl refl refl empty)

    from_check_poor :
        (s : Side) (g : Shared)
        → s.pc ≡ check_poor
        → leb_ℤ g.rich_guy (pos 0) ≡ false
        → Ahead g.rich_guy
        → To P s g
    unfolding act
    from_check_poor s g e more k =
        after_step 0 s g check_poor e
          (from_leave _ g (leb_ℤ amount g.poor_guy) refl (λ x. absurd (ground (arith, x, more))) k)

    from_check_rich : (s : Side) (g : Shared) → s.pc ≡ check_rich → Ahead g.rich_guy → To P s g
    unfolding act
    from_check_rich s g e k =
        after_step 0 s g check_rich e (elim (Bool-cases (leb_ℤ g.rich_guy (pos 0))) [
          | inl empty ↦
              rw empty (from_leave (record s { pc = leave true }) g true refl (λ x. refl) k)
          | inr more ↦ rw more (from_check_poor (record s { pc = check_poor }) g refl more k)
        ])

    from_load_poor :
        (s : Side) (g : Shared) (m : ℤ) → s.pc ≡ load_poor m → Ahead g.rich_guy → To P s g
    unfolding act
    from_load_poor s g m e k = after_step 0 s g (load_poor m) e (
        after_step 0 (record s { pc = store_poor m g.poor_guy }) g (store_poor m g.poor_guy) refl
          (from_check_rich _ _ refl k))

    from_store_poor :
        (s : Side) (g : Shared) (m p : ℤ) → s.pc ≡ store_poor m p → Ahead g.rich_guy → To P s g
    unfolding act
    from_store_poor s g m p e k = after_step 0 s g (store_poor m p) e (from_check_rich _ _ refl k)

    from_store_rich :
        (s : Side) (g : Shared) (m r : ℤ) → s.pc ≡ store_rich m r → Ahead (r -ℤ m) → To P s g
    unfolding act
    from_store_rich s g m r e k = after_step 0 s g (store_rich m r) e (from_load_poor _ _ m refl k)

    from_load_rich :
        (s : Side) (g : Shared) (m : ℤ) → s.pc ≡ load_rich m → Ahead (g.rich_guy -ℤ m) → To P s g
    unfolding act
    from_load_rich s g m e k =
        after_step 0 s g (load_rich m) e (from_store_rich _ _ m g.rich_guy refl k)

    from_clamp :
        (s : Side) (g : Shared) → s.pc ≡ clamp → Ahead (g.rich_guy -ℤ g.rich_guy) → To P s g
    unfolding act
    from_clamp s g e k = after_step 0 s g clamp e (from_load_rich _ _ g.rich_guy refl k)

    abbrev pub taken : (rich m : ℤ) → ℤ
    taken rich m = rich -ℤ (if ltb_ℤ rich m then rich else m)

    pub from_compare :
        (s : Side) (g : Shared) (m : ℤ) → s.pc ≡ compare m → Ahead (taken g.rich_guy m) → To P s g
    unfolding act
    from_compare s g m e k =
        after_step 0 s g (compare m) e (elim (Bool-cases (ltb_ℤ g.rich_guy m)) [
          | inl low ↦ rw low (from_clamp (record s { pc = clamp }) g refl (rw low at k))
          | inr high ↦
              rw high (from_load_rich (record s { pc = load_rich m }) g m refl (rw high at k))
        ])

    -- A thread in the critical section comes out of it.
    pub comes_out :
        (pc : Pc) (s : Side) (g : Shared)
        → s.pc ≡ pc
        → critical pc ≡ true
        → ((t : Side) (h : Shared) (fin : Bool) → t.pc ≡ tally fin → t.flag ≡ false → To P t h)
        → To P s g
    unfolding act
    comes_out (compare m) s g e c k = from_compare s g m e (λ t h fin a b _ _. k t h fin a b)
    comes_out clamp s g e c k = from_clamp s g e (λ t h fin a b _ _. k t h fin a b)
    comes_out (load_rich m) s g e c k = from_load_rich s g m e (λ t h fin a b _ _. k t h fin a b)
    comes_out (store_rich m r) s g e c k =
        from_store_rich s g m r e (λ t h fin a b _ _. k t h fin a b)
    comes_out (load_poor m) s g e c k = from_load_poor s g m e (λ t h fin a b _ _. k t h fin a b)
    comes_out (store_poor m p) s g e c k =
        from_store_poor s g m p e (λ t h fin a b _ _. k t h fin a b)
    comes_out check_rich s g e c k = from_check_rich s g e (λ t h fin a b _ _. k t h fin a b)
    comes_out check_poor s g e c k =
        let fin = leb_ℤ amount g.poor_guy in
        after_step 0 s g check_poor e
          (after_step 0 (record s { pc = leave fin }) g (leave fin) refl (k _ g fin refl refl))
    comes_out (leave fin) s g e c k = after_step 0 s g (leave fin) e (k _ g fin refl refl)
    comes_out pc s g e c k = absurd (cc)
