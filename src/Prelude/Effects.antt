-- ===== src/Prelude/Effects.antt =====
-- A C function that changes global state and may end the process: it returns, it calls exit(3), or
-- it is blocked for ever in a system call.
use Prim.Native.Nat.{ℕ}
use mathlib.Core.Path.{◌≡◌, refl}
use mathlib.Core.Logic.{◌⊎◌, inl, inr}
use mathlib.Core.Bool.{Bool, true, false}

pub data Run (S : Type 0) (A : Type 0) : Type 0 where
  done : A → S → Run S A
  exited : ℕ → S → Run S A
  blocked : Run S A

abbrev pub Act : Type 0 → Type 0 → Type 0
Act S A = S → Run S A

module _ {S : Type 0} where
  infixl 5 ◌>>=◌ ◌>>◌
  abbrev pub ◌>>=◌ : {A B : Type 0} → Act S A → (A → Act S B) → Act S B
  ◌>>=◌ m f s = elim (m s) [ done a t ↦ f a t | exited c t ↦ exited c t | blocked ↦ blocked ]

  abbrev pub ◌>>◌ : {B : Type 0} → Act S (Unit {0}) → Act S B → Act S B
  m >> k = m >>= λ _. k

  abbrev pub pure : {A : Type 0} → A → Act S A
  pure a s = done a s

  abbrev pub skip : Act S (Unit {0})
  skip s = done tt s

  abbrev pub modify : (S → S) → Act S (Unit {0})
  modify f s = done tt (f s)

  abbrev pub exit : {A : Type 0} → ℕ → Act S A
  exit code s = exited code s

  -- To split on the outcome of an action and keep the equation.
  pub Run-cases :
      {A : Type 0} (r : Run S A)
      → ((a : A) × (t : S) × (r ≡ done a t))
        ⊎ (((c : ℕ) × (t : S) × (r ≡ exited c t)) ⊎ (r ≡ blocked))
  Run-cases (done a t) = inl (a, t, refl)
  Run-cases (exited c t) = inr (inl (c, t, refl))
  Run-cases blocked = inr (inr refl)

  -- if (test) action;
  abbrev pub when : Bool → Act S (Unit {0}) → Act S (Unit {0})
  when true m = m
  when false m = skip
