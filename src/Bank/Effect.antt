-- ===== src/Bank/Effect.antt =====
-- One step of one thread: what it does to the lock, to the account and to the count of deposits.
use nnos.Prelude.{ℕ, ◌+◌, ◌≤◌, ◌<◌, ◌≡◌, ◌⊎◌, inl, inr, refl, Option, none, some, arith}
use nnos.Prelude.Int.{ℤ}
use nnos.Lock.{Lock, IsLock, Admits}
use nnos.Bank.{Config, deposit_money}
use nnos.Bank.Threads.{
  Pc, looping, entering, inside, computed, leaving, finished, Moved, move, entered,
}

-- between the return of cs_enter and the effect of cs_leave
abbrev pub within : {O : Type 0} → Pc O → ℕ
within (inside _) = 1
within (computed _ _) = 1
within (leaving _) = 1
within _ = 0

-- the deposits that a thread has stored
abbrev pub deposits : {O : Type 0} → Config → Pc O → ℕ
deposits c (looping i) = i
deposits c (entering i _) = i
deposits c (inside i) = i
deposits c (computed i _) = i
deposits c (leaving i) = i + 1
deposits c finished = c.bank_transactions_per_thread

abbrev pub IsBounded : {O : Type 0} → Config → Pc O → Type 0
IsBounded c (looping i) = i ≤ c.bank_transactions_per_thread
IsBounded c (entering i _) = i < c.bank_transactions_per_thread
IsBounded c (inside i) = i < c.bank_transactions_per_thread
IsBounded c (computed i _) = i < c.bank_transactions_per_thread
IsBounded c (leaving i) = i < c.bank_transactions_per_thread
IsBounded c finished = Unit

abbrev pub deposited : Config → ℤ → ℤ
deposited c b = deposit_money c b c.bank_transaction_amount

-- a computed balance is still the one that follows from the account
abbrev pub IsFresh : {O : Type 0} → Config → ℤ → Pc O → Type 0
IsFresh c b (computed _ v) = v ≡ deposited c b
IsFresh c b _ = Unit

module _ (l : Lock) (law : IsLock l) (c : Config) where
  pub record Effect (p : Pc l.Outside) (s : l.State) (b : ℤ) (m : Moved l) : Type 0 where
    pub ready : law.Ready m.state
    pub places : law.free m.state + within m.pc ≡ law.free s + within p
    pub bounded : IsBounded c m.pc
    pub fresh : IsFresh c m.account m.pc
    pub account :
        ((m.account ≡ b) × (deposits c m.pc ≡ deposits c p))
        ⊎ ((within p ≡ 1) × (m.account ≡ deposited c b) × (deposits c m.pc ≡ deposits c p + 1))

  pub move-Effect :
      (p : Pc l.Outside) (s : l.State) (b : ℤ)
      → law.Ready s
      → law.free s + within p ≤ 1
      → IsBounded c p
      → IsFresh c b p
      → Effect p s b (move l c p s b)
  unfolding move
  move-Effect (looping i) s b r h e f = ground arith
  move-Effect (entering i o) s b r h e f = go (l.enter o s) (law.enter-Admits o s r (omega arith))
    where
      go :
          (q : Option l.Outside × l.State)
          → Admits law.free law.Ready s q
          → Effect (entering i o) s b (entered l i b q)
      go (none, t) (one, none_left, r') = record {
        ready = r';
        places = omega arith;
        bounded = e;
        fresh = tt;
        account = inl (refl, refl);
      }
      go (some o', t) (same, r') = record {
        ready = r';
        places = omega arith;
        bounded = e;
        fresh = tt;
        account = inl (refl, refl);
      }
  move-Effect (inside i) s b r h e f = record {
    ready = r;
    places = refl;
    bounded = e;
    fresh = refl;
    account = inl (refl, refl);
  }
  move-Effect (computed i v) s b r h e f = record {
    ready = r;
    places = refl;
    bounded = e;
    fresh = tt;
    account = inr (refl, f, refl);
  }
  move-Effect (leaving i) s b r h e f =
      let (t, back, one, r') = law.leave-free s r (omega arith) in
      rw back (record {
        ready = r';
        places = omega arith;
        bounded = omega arith;
        fresh = tt;
        account = inl (refl, refl);
      })
  move-Effect finished s b r h e f = record {
    ready = r;
    places = refl;
    bounded = tt;
    fresh = tt;
    account = inl (refl, refl);
  }
