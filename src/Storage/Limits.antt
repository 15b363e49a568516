-- ===== src/Storage/Limits.antt =====
-- The parameters of producer_consumer.c after eval_params.
use nnos.Prelude.{◌≡◌, inl, inr, List, [], ◌∷◌, done, Run-cases, arith}
use nnos.Prelude.Int.{ℤ, pos, ◌≤ℤ◌}
use nnos.Storage.{Params, Param, defaults, eval_param, eval_params}

abbrev pub IsBetween : ℤ → ℤ → ℤ → Type 0
IsBetween low high n = (low ≤ℤ n) × (n ≤ℤ high)

pub record IsAllowed (p : Params) : Type 0 where
  pub producers : IsBetween (pos 1) (pos 4) p.total_producers
  pub consumers : IsBetween (pos 1) (pos 50) p.total_consumers
  pub capacity : IsBetween (pos 1) (pos 20) p.storage_capacity
  pub factor_p : IsBetween (pos 0) (pos 1000) p.wait_factor_p
  pub factor_c : IsBetween (pos 0) (pos 1000) p.wait_factor_c

eval_param-IsAllowed :
    (o : Param) (p q : Params) → IsAllowed p → eval_param o p ≡ done tt q → IsAllowed q
unfolding eval_param
eval_param-IsAllowed o p q v h = ground arith

eval_each-IsAllowed :
    (os : List Param) (p q : Params) → IsAllowed p → eval_params os p ≡ done tt q → IsAllowed q
unfolding eval_params
eval_each-IsAllowed [] p q v h = ground arith
eval_each-IsAllowed (o ∷ os) p q v h = elim (Run-cases (eval_param o p)) [
  | inl (_, m, e) ↦ eval_each-IsAllowed os m q (eval_param-IsAllowed o p m v e) (ground arith)
  | inr (inl (c, m, e)) ↦ absurd (ground arith)
  | inr (inr e) ↦ absurd (ground arith)
]

-- Whatever the options are, main goes on only with 1 to 4 producers, each of which has its own
-- string to produce, 1 to 50 consumers, a capacity from 1 to 20, so that the cyclic buffer lies in
-- the array, and wait factors from 0 to 1000.
pub eval_params-IsAllowed :
    (os : List Param) (p : Params) → eval_params os defaults ≡ done tt p → IsAllowed p
eval_params-IsAllowed os p h =
    eval_each-IsAllowed os defaults p
      (record {
        producers = (omega arith, omega arith);
        consumers = (omega arith, omega arith);
        capacity = (omega arith, omega arith);
        factor_p = (omega arith, omega arith);
        factor_c = (omega arith, omega arith);
      })
      h
