-- ===== src/Deposit/Lost.antt =====
-- How much two threads of bank_deposit.c can lose of their deposits.
use nnos.Prelude.{
  ℕ, zero, suc, ◌+◌, ◌≤◌, ◌<◌, ◌≡◌, ◌∙◌, sym, ap, refl, false, some, List, [], ◌∷◌, ◌++◌,
  if◌then◌else◌, lt→ltb, get_elem?, set, replicate, arith, ltb,
}
use nnos.Prelude.Int.{ℤ}
use nnos.Deposit.{
  Config, deposit_money, Pc, looping, reading, storing, finished, move, Sys, step, run, created,
}

abbrev pub at : ℤ → List Pc → Sys
at b ps = record { balance = b; threads = ps }

run-append : (c : Config) (js ks : List ℕ) (y : Sys) → run c (js ++ ks) y ≡ run c ks (run c js y)
unfolding run
run-append c [] ks y = refl
run-append c (j ∷ js) ks y = run-append c js ks (step c y j)

-- some schedule leads from `y` to `z`
pub record Leads (c : Config) (y z : Sys) : Type 0 where
  pub schedule : List ℕ
  pub reaches : run c schedule y ≡ z

Leads-same : (c : Config) {y z : Sys} → y ≡ z → Leads c y z
unfolding run
Leads-same c e = record { schedule = []; reaches = e }

Leads-trans : (c : Config) {x y z : Sys} → Leads c x y → Leads c y z → Leads c x z
Leads-trans c {x = x} p q = record {
  schedule = p.schedule ++ q.schedule;
  reaches = run-append c p.schedule q.schedule x ∙ ap (run c q.schedule) p.reaches ∙ q.reaches;
}

not_less : (n : ℕ) → ltb n n ≡ false
not_less n = ground arith

-- the list of the threads as thread `k` sees it: it stands in one place of it
record Slot (k : ℕ) (others : Pc → List Pc) : Type 0 where
  here : (p : Pc) → get_elem? (others p) k ≡ some p
  put : (p q : Pc) → set (others p) k q ≡ others q

module _ (c : Config) (k : ℕ) (others : Pc → List Pc) (slot : Slot k others) where
  one_step :
      (b : ℤ) (p : Pc) → step c (at b (others p)) k ≡ at (move c p b).1 (others (move c p b).0)
  unfolding step
  one_step b p = rw (slot.here p, slot.put p) refl

  test_passes :
      (b : ℤ) (i : ℕ)
      → i < c.bank_transactions_per_thread
      → step c (at b (others (looping i))) k ≡ at b (others (reading i))
  unfolding move
  test_passes b i lt =
      one_step b (looping i)
      ∙ ap (λ x. at b (others (if x then reading i else finished)))
          (lt→ltb i c.bank_transactions_per_thread lt)

  test_ends :
      (b : ℤ)
      → step c (at b (others (looping c.bank_transactions_per_thread))) k ≡ at b (others finished)
  unfolding move
  test_ends b =
      one_step b (looping c.bank_transactions_per_thread)
      ∙ ap (λ x. at b (others (if x then reading c.bank_transactions_per_thread else finished)))
          (not_less c.bank_transactions_per_thread)

  -- what a thread computes from the balance that it reads
  reads :
      (b : ℤ) (i : ℕ)
      → i < c.bank_transactions_per_thread
      → Leads c
          (at b (others (looping i)))
          (at b (others (storing i (deposit_money c b c.bank_transaction_amount))))
  unfolding run move
  reads b i lt = record {
    schedule = k ∷ k ∷ [];
    reaches = ap (λ y. step c y k) (test_passes b i lt) ∙ one_step b (reading i);
  }

  stores :
      (b v : ℤ) (i : ℕ) → Leads c (at b (others (storing i v))) (at v (others (looping (i + 1))))
  unfolding run move
  stores b v i = record { schedule = k ∷ []; reaches = one_step b (storing i v) }

  ends :
      (b : ℤ)
      → Leads c (at b (others (looping c.bank_transactions_per_thread))) (at b (others finished))
  unfolding run
  ends b = record { schedule = k ∷ []; reaches = test_ends b }

  -- `m` deposits of one thread, whatever they leave in the account
  rounds :
      (m i j : ℕ) (b : ℤ)
      → i + m ≡ j
      → j ≤ c.bank_transactions_per_thread
      → (b' : ℤ) × Leads c (at b (others (looping i))) (at b' (others (looping j)))
  rounds zero i j b e le = (b, Leads-same c (ap (λ n. at b (others (looping n))) (omega arith)))
  rounds (suc m) i j b e le =
      let v = deposit_money c b c.bank_transaction_amount in
      let (b', more) = rounds m (i + 1) j v (omega arith) le in
      (b', Leads-trans c (reads b i (omega arith)) (Leads-trans c (stores b v i) more))

first-Slot : (q : Pc) → Slot 0 (λ p. p ∷ q ∷ [])
first-Slot q = record { here = λ p. refl; put = λ p r. refl }

second-Slot : (p : Pc) → Slot 1 (λ q. p ∷ q ∷ [])
second-Slot p = record { here = λ q. refl; put = λ q r. refl }

module _ (c : Config) (t : ℕ) (per : c.bank_transactions_per_thread ≡ t + 2) where
  abbrev pub deposited : ℤ → ℤ
  deposited b = deposit_money c b c.bank_transaction_amount

  abbrev pub pair : ℤ → Pc → Pc → Sys
  pair b p q = at b (p ∷ q ∷ [])

  -- The first thread reads the account, and the second makes all its deposits but one.
  first_reads :
      (s : ℤ)
      → (b : ℤ) × Leads c
          (pair s (looping 0) (looping 0))
          (pair b (storing 0 (deposited s)) (looping (t + 1)))
  first_reads s =
      let p = storing 0 (deposited s) in
      let (b, more) =
        rounds c 1 (λ q. p ∷ q ∷ []) (second-Slot p) (t + 1) 0 (t + 1) s (omega arith)
          (omega (arith, per)) in
      let start =
        reads c 0 (λ p. p ∷ looping 0 ∷ []) (first-Slot (looping 0)) s 0 (omega (arith, per)) in
      (b, Leads-trans c start more)

  -- The first one stores, the second reads for its last deposit, and the first makes all its others.
  second_reads :
      (b v : ℤ)
      → (b' : ℤ) × Leads c
          (pair b (storing 0 v) (looping (t + 1)))
          (pair b' (looping (t + 2)) (storing (t + 1) (deposited v)))
  second_reads b v =
      let q = storing (t + 1) (deposited v) in
      let (b', more) =
        rounds c 0 (λ p. p ∷ q ∷ []) (first-Slot q) (t + 1) 1 (t + 2) v (omega arith)
          (omega (arith, per)) in
      let store = stores c 0 (λ p. p ∷ looping (t + 1) ∷ []) (first-Slot (looping (t + 1))) b v 0 in
      let read =
        reads c 1 (λ q. looping 1 ∷ q ∷ []) (second-Slot (looping 1)) v (t + 1)
          (omega (arith, per)) in
      (b', Leads-trans c store (Leads-trans c read more))

  -- The first one ends, and the second stores.
  both_end :
      (b v : ℤ) → Leads c (pair b (looping (t + 2)) (storing (t + 1) v)) (pair v finished finished)
  both_end b v =
      let last = looping c.bank_transactions_per_thread in
      let q = storing (t + 1) v in
      let there = Leads-same c (ap (λ n. pair b (looping n) q) (sym per)) in
      let again = Leads-same c (ap (λ n. pair v finished (looping n)) (omega (arith, per))) in
      Leads-trans c there (
        Leads-trans c (ends c 0 (λ p. p ∷ q ∷ []) (first-Slot q) b) (
          Leads-trans c (stores c 1 (λ q. finished ∷ q ∷ []) (second-Slot finished) b v (t + 1))
            (Leads-trans c again (ends c 1 (λ q. finished ∷ q ∷ []) (second-Slot finished) v))))

  pub all_but_two_lost :
      c.thread_count ≡ 2
      → Leads c (created c) (pair (deposited (deposited c.account_balance)) finished finished)
  all_but_two_lost two =
      let s = c.account_balance in
      let (b, start) = first_reads s in
      let (b', middle) = second_reads b (deposited s) in
      let begin = Leads-same c (ap (λ n. at s (replicate n (looping 0))) two) in
      Leads-trans c begin
        (Leads-trans c start (Leads-trans c middle (both_end b' (deposited (deposited s)))))
