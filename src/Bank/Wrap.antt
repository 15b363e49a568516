-- ===== src/Bank/Wrap.antt =====
-- The expected balance of main is computed with a product of two `unsigned int`, which wraps.
use nnos.Prelude.{
  ℕ, zero, suc, ◌*◌, ◌%◌, ◌≤◌, ◌<◌, ◌≡◌, ◌≢◌, ap, refl, true, arith, Bool-cases, inl, inr,
}
use nnos.Prelude.Int.{ℤ, pos, negsuc, eqb_ℤ, ◌-ℤ◌, ◌*ℤ◌, *ℤ_parts, int_laws, pos_part, neg_part}
use nnos.Bank.{Config, expected_balance, exit_status, u32}
use nnos.Bank.Invariant.{after}

mul_lt : (n m k : ℕ) → n < m → n * suc k < m * suc k
mul_lt n m k h = grind arith

-- Different multiples of a number that is not zero differ.
pub scaled : (n m : ℕ) (d : ℤ) → n < m → pos n *ℤ d ≡ pos m *ℤ d → d ≡ pos 0
scaled n m (pos zero) h e = refl
scaled n m (pos (suc k)) h e = absurd (
    omega (
      arith,
      mul_lt n m k h,
      ap pos_part e,
      ap neg_part e,
      *ℤ_parts (pos n) (pos (suc k)),
      *ℤ_parts (pos m) (pos (suc k)),
    ))
scaled n m (negsuc k) h e = absurd (
    omega (
      arith,
      mul_lt n m k h,
      ap pos_part e,
      ap neg_part e,
      *ℤ_parts (pos n) (negsuc k),
      *ℤ_parts (pos m) (negsuc k),
    ))

pub eqb_sound : (a b : ℤ) → eqb_ℤ a b ≡ true → a ≡ b
eqb_sound a b e = ground arith

pub exit_status_ne : (a b : ℤ) → a ≢ b → exit_status a b ≡ 1
unfolding exit_status
exit_status_ne a b ne = elim (Bool-cases (eqb_ℤ a b)) [
  | inl same ↦ absurd (ne (eqb_sound a b same))
  | inr other ↦ rw other
]

pub after-ne :
    (c : Config) (n m : ℕ)
    → n < m
    → c.bank_transaction_amount ≢ c.bank_transaction_fee
    → after c m ≢ after c n
after-ne c n m h ne e = ne (omega (int_laws, ap pos_part zero_step, ap neg_part zero_step))
  where
    d : ℤ
    d = c.bank_transaction_amount -ℤ c.bank_transaction_fee

    zero_step : d ≡ pos 0
    zero_step = scaled n m d h (omega (int_laws, ap pos_part e, ap neg_part e))

-- When the product of the two counts does not fit an unsigned int and a deposit changes the
-- account, main reports an error for the balance that holds every deposit.
pub wrapped_count_fails :
    (c : Config)
    → u32 ≤ c.thread_count * c.bank_transactions_per_thread
    → c.bank_transaction_amount ≢ c.bank_transaction_fee
    → exit_status (after c (c.thread_count * c.bank_transactions_per_thread)) (expected_balance c)
      ≡ 1
unfolding expected_balance
wrapped_count_fails c big ne =
    let product = c.thread_count * c.bank_transactions_per_thread in
    exit_status_ne (after c product) _ (λ e. after-ne c (product % u32) product (omega arith) ne e)
