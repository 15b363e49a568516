-- ===== src/Lock.antt =====
-- What the bank threads need of a lock: the interface between bank_deposit_CPUtime.c and the
-- header that implements cs_enter and cs_leave.
use nnos.Prelude.{ℕ, zero, suc, Bool, true, false, ◌≡◌, ◌≤◌, Option, none, some}

-- What a step of cs_enter may do: let the thread in, which takes the one free place, or leave it
-- outside with the place as it was.
abbrev pub Admits : {S O : Type 0} → (S → ℕ) → (S → Type 0) → S → Option O × S → Type 0
Admits free Ready s (none, t) = (free s ≡ 1) × (free t ≡ 0) × Ready t
Admits free Ready s (some pc, t) = (free t ≡ free s) × Ready t

-- the operations
pub record Lock : Type 1 where
  pub State : Type 0
  pub Outside : Type 0  -- where a thread stands inside cs_enter
  pub first : Outside
  pub enter : Outside → State → Option Outside × State
  pub leave : State → Option State

module _ (l : Lock) where
  -- Whether a thread that runs alone is let in within `n` steps.
  unfoldable pub lets_in : ℕ → l.Outside → l.State → Bool
  lets_in zero pc s = false
  lets_in (suc n) pc s =
      let (p, t) = l.enter pc s in elim p [ none ↦ true | some pc' ↦ lets_in n pc' t ]

  -- the laws of a lock that admits one thread at a time
  pub record IsLock : Type 1 where
    pub free : l.State → ℕ
    pub Ready : l.State → Type 0
    pub enter-Admits :
        (pc : l.Outside) (s : l.State) → Ready s → free s ≤ 1 → Admits free Ready s (l.enter pc s)
    pub enter_alone : (pc : l.Outside) (s : l.State) → Ready s → free s ≡ 1 → lets_in 2 pc s ≡ true
    pub leave-free :
        (s : l.State)
        → Ready s
        → free s ≡ 0
        → (t : l.State) × (l.leave s ≡ some t) × (free t ≡ 1) × Ready t
