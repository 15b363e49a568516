-- ===== src/Bank/Template.antt =====
-- 04-critical_section/CPUtime/v2021/cs_methods.h as it stands: cs_init checks the method and the number
-- of threads, and the cases of cs_enter and cs_leave are empty.
use nnos.Prelude.{
  ℕ, Bool, true, none, some, ◌==◌, ◌||◌, ◌&&◌, not, if◌then◌else◌, Run, done, exited,
}
use nnos.Prelude.Int.{ℤ, pos, eqb_ℤ, ltb_ℤ}
use nnos.Lock.{Lock}

pub record Template : Type 0 where
  pub cs_method_used : ℤ
  pub cs_var_allocated : Bool

abbrev pub cs_methods : ℤ
cs_methods = pos 11

-- CS_METHOD_PETERSON and CS_METHOD_PETERSON_XCHG
abbrev pub is_peterson : ℤ → Bool
is_peterson method = eqb_ℤ method (pos 1) || eqb_ℤ method (pos 2)

-- Peterson_check stands in the cases of its two methods.
unfoldable pub cs_init : (method : ℤ) → (threads : ℕ) → Template → Run Template (Unit {0})
cs_init method threads s =
    let t = record s { cs_method_used = method } in
    if ltb_ℤ method (pos 0) || not (ltb_ℤ method cs_methods)
    then exited 1 t
    else if is_peterson method && not (threads == 2)
    then exited 1 t
    else done tt (record t { cs_var_allocated = true })

-- cs_enter and cs_leave, which do nothing
abbrev pub no_lock : Lock
no_lock = record {
  State = Template;
  Outside = Unit {0};
  first = tt;
  enter = λ pc s. (none, s);
  leave = λ s. some s;
}
