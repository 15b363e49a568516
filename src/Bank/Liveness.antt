-- ===== src/Bank/Liveness.antt =====
-- No schedule brings the deposit threads into a deadlock: there is always a continuation in which
-- all of them finish.
use nnos.Prelude.{
  ℕ, zero, suc, ◌+◌, ◌-◌, ◌*◌, ◌≤◌, ◌<◌, ◌≡◌, ◌∙◌, refl, true, Option, none, some, List, [], ◌∷◌,
  ◌++◌, get_elem?, set, get_elem?-set_self, arith, dec_lt,
}
use nnos.Prelude.Sums.{total, total-set, le-total, total-pos}
use nnos.Prelude.Int.{ℤ}
use nnos.Lock.{Lock, IsLock, lets_in}
use nnos.Bank.{Config}
use nnos.Bank.Threads.{
  Pc, looping, entering, inside, computed, leaving, finished, Sys, move, moved, step, run, created,
  all_finished,
}
use nnos.Bank.Effect.{within, IsBounded}
use nnos.Bank.Invariant.{Inv, created-Inv, run-Inv}

-- the steps that are left for a thread, without the waiting
abbrev rest : {O : Type 0} → Config → Pc O → ℕ
rest c (looping i) = 6 * (c.bank_transactions_per_thread - i) + 1
rest c (entering i o) = 6 * (c.bank_transactions_per_thread - i)
rest c (inside i) = 6 * (c.bank_transactions_per_thread - i) - 1
rest c (computed i v) = 6 * (c.bank_transactions_per_thread - i) - 2
rest c (leaving i) = 6 * (c.bank_transactions_per_thread - i) - 3
rest c finished = 0

module _ (l : Lock) (law : IsLock l) (c : Config) where
  abbrev left : Sys l → ℕ
  left y = total (rest c) y.threads

  -- some steps from `y` leave fewer than before
  abbrev Advances : Sys l → Type 0
  Advances y = (ls : List ℕ) × (left (run l c ls y) < left y)

  step_lem :
      (y : Sys l) (k : ℕ) (p : Pc l.Outside)
      → get_elem? y.threads k ≡ some p
      → step l c y k ≡ moved l y k (move l c p y.lock y.balance)
  unfolding step
  step_lem y k p e = rw (e, step)

  one_step :
      (y : Sys l) (k : ℕ) (p : Pc l.Outside)
      → get_elem? y.threads k ≡ some p
      → rest c (move l c p y.lock y.balance).pc < rest c p
      → Advances y
  unfolding run
  one_step y k p e h = (
    k ∷ [],
    rw (step_lem y k p e)
        (omega (arith, h, total-set (rest c) y.threads k p (move l c p y.lock y.balance).pc e)),
  )

  -- a thread in cs_enter that is let in when it runs alone
  goes_in :
      (n : ℕ) (y : Sys l) (k i : ℕ) (o : l.Outside)
      → get_elem? y.threads k ≡ some (entering i o)
      → i < c.bank_transactions_per_thread
      → lets_in l n o y.lock ≡ true
      → Advances y
  unfolding move lets_in run
  goes_in zero y k i o e h n = cc
  goes_in (suc n) y k i o e h a = go (λ z o'. goes_in n z k i o') (l.enter o y.lock) refl a
    where
      go :
          ((z : Sys l) (o' : l.Outside)
            → get_elem? z.threads k ≡ some (entering i o')
            → i < c.bank_transactions_per_thread
            → lets_in l n o' z.lock ≡ true
            → Advances z)
          → (q : Option l.Outside × l.State) → l.enter o y.lock ≡ q
          → elim q.0 [ none ↦ true | some pc' ↦ lets_in l n pc' q.1 ] ≡ true
          → Advances y
      go again (none, t) entered a = one_step y k (entering i o) e (rw entered (omega arith))
      go again (some o', t) waits a =
          let z : Sys l = record {
            lock = t;
            balance = y.balance;
            threads = set y.threads k (entering i o');
          } in
          let same : step l c y k ≡ z = step_lem y k (entering i o) e ∙ rw waits refl in
          let (ls, less) =
            again z o' (get_elem?-set_self y.threads k (entering i o) (entering i o') e) h a in
          (
            k ∷ ls,
            rw (run, same)
                (omega
                  (arith, less, total-set (rest c) y.threads k (entering i o) (entering i o') e)),
          )

  -- a thread between cs_enter and cs_leave never waits
  goes_on :
      (y : Sys l) (k : ℕ) (p : Pc l.Outside)
      → Inv l law c y
      → get_elem? y.threads k ≡ some p
      → IsBounded c p
      → 1 ≤ within p
      → law.free y.lock ≡ 0
      → Advances y
  unfolding move
  goes_on y k (inside i) v e h w f = one_step y k (inside i) e (omega arith)
  goes_on y k (computed i x) v e h w f = one_step y k (computed i x) e (omega arith)
  goes_on y k (leaving i) v e h w f =
      let (t, back, _, _) = law.leave-free y.lock v.ready f in
      one_step y k (leaving i) e (rw back (omega arith))
  goes_on y k p v e h w f = absurd (omega arith)

  looping-less :
      (i : ℕ) (s : l.State) (b : ℤ)
      → rest c (move l c (looping i) s b).pc < rest {O = l.Outside} c (looping i)
  unfolding move
  looping-less i s b = ground arith

  -- with nobody inside, any thread that has not finished can go on
  comes_next :
      (y : Sys l) (k : ℕ) (p : Pc l.Outside)
      → Inv l law c y
      → get_elem? y.threads k ≡ some p
      → IsBounded c p
      → within p ≡ 0
      → law.free y.lock ≡ 1
      → 1 ≤ rest c p
      → Advances y
  unfolding move
  comes_next y k (looping i) v e h w f r =
      one_step y k (looping i) e (looping-less i y.lock y.balance)
  comes_next y k (entering i o) v e h w f r =
      goes_in 2 y k i o e h (law.enter_alone o y.lock v.ready f)
  comes_next y k p v e h w f r = absurd (omega arith)

  -- While steps are left, some thread can take one of them.
  advances : (y : Sys l) → Inv l law c y → 1 ≤ left y → Advances y
  advances y v more = elim (dec_lt 0 (total within y.threads)) [
    | yes someone ↦
        let (k, p, e, w) = total-pos within y.threads someone in
        goes_on y k p v e (v.bounded k p e) w (omega (arith, v.places))
    | no nobody ↦
        let (k, p, e, r) = total-pos (rest c) y.threads more in
        comes_next y k p v e (v.bounded k p e)
          (omega (arith, le-total within y.threads k p e, nobody)) (omega (arith, v.places, nobody))
          r
  ]

  finished-rest :
      (y : Sys l) (ps : List (Pc l.Outside))
      → total (rest c) ps ≡ 0
      → ((k : ℕ) (p : Pc l.Outside) → get_elem? ps k ≡ some p → IsBounded c p)
      → all_finished l ps ≡ true
  unfolding total all_finished
  finished-rest y [] e b = refl
  finished-rest y (finished ∷ ps) e b =
      finished-rest y ps (omega (arith, e)) (λ k p h. b (suc k) p h)
  finished-rest y (looping i ∷ ps) e b = absurd (omega arith)
  finished-rest y (p ∷ ps) e b = let x = b 0 p refl in absurd (omega (arith, x))

  run-append : (ks ls : List ℕ) (y : Sys l) → run l c (ks ++ ls) y ≡ run l c ls (run l c ks y)
  unfolding run
  run-append [] ls y = refl
  run-append (k ∷ ks) ls y = run-append ks ls (step l c y k)

  finishes :
      (n : ℕ) (y : Sys l)
      → Inv l law c y
      → left y ≤ n
      → (ls : List ℕ) × (all_finished l (run l c ls y).threads ≡ true)
  unfolding run
  finishes zero y v h = ([], finished-rest y y.threads (omega arith) v.bounded)
  finishes (suc n) y v h = elim (dec_lt 0 (left y)) [
    | no none_left ↦ ([], finished-rest y y.threads (omega (arith, none_left)) v.bounded)
    | yes more ↦
        let (ks, less) = advances y v more in
        let (ls, all) = finishes n (run l c ks y) (run-Inv l law c ks y v) (omega (arith, less)) in
        (ks ++ ls, rw (run-append ks ls y) all)
  ]

  -- Under a lock that keeps its laws and has its place free at the start, every schedule can be
  -- continued until all threads have finished: whatever has happened, no deadlock.
  pub can_finish :
      (s : l.State) (ks : List ℕ)
      → law.Ready s
      → law.free s ≡ 1
      → (ls : List ℕ) × (all_finished l (run l c (ks ++ ls) (created l c s)).threads ≡ true)
  can_finish s ks r one =
      let y = run l c ks (created l c s) in
      let (ls, all) =
        finishes (left y) y (run-Inv l law c ks (created l c s) (created-Inv l law c s r one))
          (omega arith) in
      (ls, rw (run-append ks ls (created l c s)) all)
