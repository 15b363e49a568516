-- ===== src/Bank/Invariant.antt =====
-- The account is what the deposits made so far have left, and at most one thread is within.
use nnos.Prelude.{
  ℕ, ◌+◌, ◌≡◌, ◌≢◌, ◌∙◌, sym, ap, inl, inr, some, List, [], ◌∷◌, length, length-set,
  length-replicate, get_elem?, set, get_elem?-replicate, arith, Option-cases,
}
use nnos.Prelude.Sums.{total, total-set, le-total, add-le-total, set-cases, total-replicate}
use nnos.Prelude.Int.{ℤ, pos, ◌+ℤ◌, ◌-ℤ◌, ◌*ℤ◌, *ℤ_parts, int_laws}
use nnos.Lock.{Lock, IsLock}
use nnos.Bank.{Config, deposit_money}
use nnos.Bank.Threads.{Pc, looping, computed, Moved, Sys, move, moved, step, run, created}
use nnos.Bank.Effect.{within, deposits, IsBounded, deposited, IsFresh, Effect, move-Effect}

-- the account after `n` deposits
abbrev pub after : Config → ℕ → ℤ
after c n = c.account_balance +ℤ pos n *ℤ (c.bank_transaction_amount -ℤ c.bank_transaction_fee)

pub after-zero : (c : Config) → after c 0 ≡ c.account_balance
unfolding ◌+ℤ◌ ◌*ℤ◌
after-zero c = ground arith

-- one more deposit
pub deposited-after : (c : Config) (n : ℕ) → deposited c (after c n) ≡ after c (n + 1)
unfolding deposit_money
deposited-after c n =
    let d = c.bank_transaction_amount -ℤ c.bank_transaction_fee in
    omega (int_laws, *ℤ_parts (pos n) d, *ℤ_parts (pos (n + 1)) d)

module _ (l : Lock) (law : IsLock l) (c : Config) where
  pub record Inv (y : Sys l) : Type 0 where
    pub ready : law.Ready y.lock
    pub count : length y.threads ≡ c.thread_count
    pub places : law.free y.lock + total within y.threads ≡ 1
    pub bounded : (k : ℕ) (p : Pc l.Outside) → get_elem? y.threads k ≡ some p → IsBounded c p
    pub fresh : (k : ℕ) (p : Pc l.Outside) → get_elem? y.threads k ≡ some p → IsFresh c y.balance p
    pub kept : y.balance ≡ after c (total (deposits c) y.threads)

  abbrev start : Pc l.Outside
  start = looping 0

  IsFresh-outside : (q : Pc l.Outside) (b : ℤ) → within q ≡ 0 → IsFresh c b q
  IsFresh-outside (looping i) b e = tt
  IsFresh-outside (computed i v) b e = absurd (omega arith)
  IsFresh-outside _ b e = tt

  pub created-Inv : (s : l.State) → law.Ready s → law.free s ≡ 1 → Inv (created l c s)
  created-Inv s r one = record {
    ready = r;
    count = length-replicate c.thread_count start;
    places = omega (arith, total-replicate within c.thread_count start);
    bounded = λ k p e. rw (get_elem?-replicate c.thread_count k start p e) (omega arith);
    fresh = λ k p e. rw (get_elem?-replicate c.thread_count k start p e) tt;
    kept =
        rw (total-replicate (deposits c) c.thread_count start)
          (sym (after-zero c) ∙ ap (after c) (omega arith));
  }

  moved-Inv :
      (y : Sys l) (k : ℕ) (p : Pc l.Outside)
      → get_elem? y.threads k ≡ some p
      → Inv y
      → (m : Moved l) → Effect l law c p y.lock y.balance m
      → Inv (moved l y k m)
  moved-Inv y k p e v m f = record {
    ready = f.ready;
    count = length-set y.threads k m.pc ∙ v.count;
    places = omega (arith, total-set within y.threads k p m.pc e, f.places, v.places);
    bounded = λ j q h. elim (set-cases y.threads k j p m.pc q e h) [
      | inl new ↦ rw new f.bounded
      | inr (ne, old) ↦ v.bounded j q old
    ];
    fresh = λ j q h. elim (set-cases y.threads k j p m.pc q e h) [
      | inl new ↦ rw new f.fresh
      | inr (ne, old) ↦ still j q ne old
    ];
    kept = account;
  }
    where
      alone :
          (j : ℕ) (q : Pc l.Outside)
          → k ≢ j
          → get_elem? y.threads j ≡ some q
          → within p ≡ 1
          → within q ≡ 0
      alone j q ne old one = omega (arith, v.places, add-le-total within y.threads k j p q e old ne)

      still :
          (j : ℕ) (q : Pc l.Outside)
          → k ≢ j
          → get_elem? y.threads j ≡ some q
          → IsFresh c m.account q
      still j q ne old = elim f.account [
        | inl (same, _) ↦ rw same (v.fresh j q old)
        | inr (one, _, _) ↦ IsFresh-outside q m.account (alone j q ne old one)
      ]

      account : m.account ≡ after c (total (deposits c) (set y.threads k m.pc))
      account = elim f.account [
        | inl (same, d) ↦
            same
            ∙ v.kept
            ∙ ap (after c) (omega (arith, total-set (deposits c) y.threads k p m.pc e))
        | inr (_, new, d) ↦
            new
            ∙ ap (deposited c) v.kept
            ∙ deposited-after c _
            ∙ ap (after c) (omega (arith, total-set (deposits c) y.threads k p m.pc e))
      ]

  step-Inv : (y : Sys l) (k : ℕ) → Inv y → Inv (step l c y k)
  unfolding step
  step-Inv y k v = elim (Option-cases (get_elem? y.threads k)) [
    | inl out ↦ rw (out, step) v
    | inr (p, e) ↦
        rw (e, step)
          (moved-Inv y k p e v (move l c p y.lock y.balance) (
            move-Effect l law c p y.lock y.balance v.ready
              (omega (arith, v.places, le-total within y.threads k p e)) (v.bounded k p e)
              (v.fresh k p e)))
  ]

  -- Every schedule keeps the invariant.
  pub run-Inv : (ks : List ℕ) (y : Sys l) → Inv y → Inv (run l c ks y)
  unfolding run
  run-Inv [] y v = v
  run-Inv (k ∷ ks) y v = run-Inv ks (step l c y k) (step-Inv y k v)
