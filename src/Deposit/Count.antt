-- ===== src/Deposit/Count.antt =====
-- How many deposits the account of bank_deposit.c shows, whatever the schedule.
use nnos.Prelude.{
  ℕ, ◌+◌, ◌*◌, ◌≤◌, ◌<◌, ◌≡◌, ◌∙◌, sym, ap, refl, inl, inr, true, some, List, [], ◌∷◌, length,
  length-set, length-replicate, get_elem?, set, get_elem?-replicate, arith, Option-cases,
}
use mathlib.Core.Path.{subst}
use nnos.Prelude.Sums.{total, total-set, set-cases, total-replicate}
use nnos.Prelude.Int.{ℤ, pos, ◌+ℤ◌, ◌-ℤ◌, ◌*ℤ◌, *ℤ_parts, int_laws}
use nnos.Deposit.{
  Config, deposit_money, Pc, looping, reading, storing, finished, move, Sys, step, run, created,
  all_finished,
}

-- the account after `n` deposits, one after the other
abbrev pub after : Config → ℕ → ℤ
after c n = c.account_balance +ℤ pos n *ℤ (c.bank_transaction_amount -ℤ c.bank_transaction_fee)

pub after-zero : (c : Config) → after c 0 ≡ c.account_balance
unfolding ◌+ℤ◌ ◌*ℤ◌
after-zero c = ground arith

pub deposit_money-after :
    (c : Config) (n : ℕ) → deposit_money c (after c n) c.bank_transaction_amount ≡ after c (n + 1)
unfolding deposit_money
deposit_money-after c n =
    let d = c.bank_transaction_amount -ℤ c.bank_transaction_fee in
    omega (int_laws, *ℤ_parts (pos n) d, *ℤ_parts (pos (n + 1)) d)

-- the deposits that a thread has stored
abbrev pub deposits : Config → Pc → ℕ
deposits c (looping i) = i
deposits c (reading i) = i
deposits c (storing i _) = i
deposits c finished = c.bank_transactions_per_thread

abbrev IsBounded : Config → Pc → Type 0
IsBounded c (looping i) = i ≤ c.bank_transactions_per_thread
IsBounded c (reading i) = i < c.bank_transactions_per_thread
IsBounded c (storing i _) = i < c.bank_transactions_per_thread
IsBounded c finished = Unit

-- The account shows some of the `made` deposits, and at least one when any has been made.
abbrev pub Shows : Config → (made : ℕ) → ℤ → Type 0
Shows c made b = (k : ℕ) × (b ≡ after c k) × (k ≤ made) × (1 ≤ made → 1 ≤ k)

-- what a thread is about to store
abbrev IsNext : Config → (made : ℕ) → Pc → Type 0
IsNext c made (storing i v) = Shows c (made + 1) v
IsNext c made _ = Unit

record Effect (c : Config) (made : ℕ) (p : Pc) (q : Pc) (b : ℤ) (made' : ℕ) : Type 0 where
  bounded : IsBounded c q
  grows : made' + deposits c p ≡ made + deposits c q
  at_least : made ≤ made'
  next : IsNext c made' q
  shows : Shows c made' b

move-Effect :
    (c : Config) (made : ℕ) (p : Pc) (b : ℤ)
    → IsBounded c p
    → IsNext c made p
    → Shows c made b
    → let (q, b') = move c p b in (made' : ℕ) × Effect c made p q b' made'
unfolding move
move-Effect c made (looping i) b h n s = (made, ground (arith, s))
move-Effect c made (reading i) b h n (k, e, le, one) = (
  made,
  record {
    bounded = h;
    grows = refl;
    at_least = omega arith;
    next = (
      k + 1,
      ap (λ x. deposit_money c x c.bank_transaction_amount) e ∙ deposit_money-after c k,
      omega (arith, le),
      λ x. omega arith,
    );
    shows = (k, e, le, one);
  },
)
move-Effect c made (storing i v) b h n s = (
  made + 1,
  record {
    bounded = omega (arith, h);
    grows = omega arith;
    at_least = omega arith;
    next = tt;
    shows = n;
  },
)
move-Effect c made finished b h n s = (made, ground (arith, s))

IsNext-later :
    (c : Config) (made made' : ℕ) (p : Pc) → made ≤ made' → IsNext c made p → IsNext c made' p
IsNext-later c made made' (storing i v) le (k, e, small, one) =
    (k, e, omega (arith, small), λ h. one (omega arith))
IsNext-later c made made' (looping i) le n = tt
IsNext-later c made made' (reading i) le n = tt
IsNext-later c made made' finished le n = tt

module _ (c : Config) where
  record Inv (y : Sys) : Type 0 where
    count : length y.threads ≡ c.thread_count
    bounded : (k : ℕ) (p : Pc) → get_elem? y.threads k ≡ some p → IsBounded c p
    next :
        (k : ℕ) (p : Pc)
        → get_elem? y.threads k ≡ some p
        → IsNext c (total (deposits c) y.threads) p
    shows : Shows c (total (deposits c) y.threads) y.balance

  created-Inv : Inv (created c)
  created-Inv = record {
    count = length-replicate c.thread_count (looping 0);
    bounded = λ k p e. rw (get_elem?-replicate c.thread_count k (looping 0) p e) (omega arith);
    next = λ k p e. rw (get_elem?-replicate c.thread_count k (looping 0) p e) tt;
    shows = (
      0,
      sym (after-zero c),
      omega arith,
      λ h. absurd (omega (arith, total-replicate (deposits c) c.thread_count (looping 0))),
    );
  }

  step-Inv : (y : Sys) (k : ℕ) → Inv y → Inv (step c y k)
  unfolding step
  step-Inv y k v = elim (Option-cases (get_elem? y.threads k)) [
    | inl out ↦ rw (out, step) v
    | inr (p, e) ↦
        rw (e, step)
          (go p e (move c p y.balance) (
            move-Effect c (total (deposits c) y.threads) p y.balance (v.bounded k p e)
              (v.next k p e) v.shows))
  ]
    where
      go :
          (p : Pc)
          → get_elem? y.threads k ≡ some p
          → (r : Pc × ℤ) → (made : ℕ) × Effect c (total (deposits c) y.threads) p r.0 r.1 made
          → Inv (record { balance = r.1; threads = set y.threads k r.0 })
      go p e (q, b) (made, f) =
          let same : total (deposits c) (set y.threads k q) ≡ made =
            omega (arith, total-set (deposits c) y.threads k p q e, f.grows) in
          record {
            count = length-set y.threads k q ∙ v.count;
            bounded = λ j a h. elim (set-cases y.threads k j p q a e h) [
              | inl new ↦ rw new f.bounded
              | inr (ne, old) ↦ v.bounded j a old
            ];
            next = λ j a h. rw same (elim (set-cases y.threads k j p q a e h) [
              | inl new ↦ rw new f.next
              | inr (ne, old) ↦ IsNext-later c _ made a f.at_least (v.next j a old)
            ]);
            shows = rw same f.shows;
          }

  run-Inv : (ks : List ℕ) (y : Sys) → Inv y → Inv (run c ks y)
  unfolding run
  run-Inv [] y v = v
  run-Inv (k ∷ ks) y v = run-Inv ks (step c y k) (step-Inv y k v)

  total-finished :
      (ps : List Pc)
      → all_finished ps ≡ true
      → total (deposits c) ps ≡ length ps * c.bank_transactions_per_thread
  unfolding total all_finished
  total-finished [] h = omega arith
  total-finished (finished ∷ ps) h = grind (arith, total-finished ps h)
  total-finished (looping i ∷ ps) h = cc
  total-finished (reading i ∷ ps) h = cc
  total-finished (storing i v ∷ ps) h = cc

  -- When all threads have finished, whatever the schedule, the account is what some number of
  -- deposits leaves that are made one after the other: no more than the threads have made, and at
  -- least one, if they have made any.
  pub finished_count :
      (ks : List ℕ)
      → all_finished (run c ks (created c)).threads ≡ true
      → Shows c (c.thread_count * c.bank_transactions_per_thread) (run c ks (created c)).balance
  finished_count ks h =
      let v = run-Inv ks (created c) created-Inv in
      subst (λ n. Shows c n (run c ks (created c)).balance)
        (total-finished _ h ∙ ap (λ n. n * c.bank_transactions_per_thread) v.count) v.shows
