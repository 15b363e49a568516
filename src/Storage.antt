-- ===== src/Storage.antt =====
-- 05-synchronization/producer_consumer.c: producers and consumers of characters over a cyclic buffer.
-- The file leaves the synchronization to its reader, so the storage is modelled as it is used by one
-- thread at a time. The barrier, the delays and the texts are left out; an option carries the number
-- that atoi returns, and `char` is a number.
pub mod Queue
pub mod Refines
pub mod Limits
mod Tests
use nnos.Prelude.{
  ℕ, zero, suc, ◌+◌, ◌-◌, ◌%◌, ◌≡◌, Bool, true, false, ◌||◌, List, [], ◌∷◌, ◌++◌, if◌then◌else◌,
  ltb, ◌==◌, Option, none, some, Run, done, exited, blocked, Act, ◌>>=◌, ◌>>◌, skip, modify, exit,
  when, replicate, get_or, set,
}
use nnos.Prelude.Int.{ℤ, pos, ltb_ℤ, ◌+ℤ◌, ◌-ℤ◌}

abbrev pub max_storage_capacity : ℕ
max_storage_capacity = 20

abbrev pub max_producers : ℕ
max_producers = 4

abbrev pub max_consumers : ℕ
max_consumers = 50

abbrev pub empty_space_item : ℕ
empty_space_item = 95

abbrev pub quit_item : ℕ
quit_item = 45

-- shared_storage_t
pub record Storage : Type 0 where
  pub buf : List ℕ
  pub capacity : ℕ
  pub in_ : ℕ
  pub out : ℕ
  pub count : ℤ

-- the globals that eval_params sets; the capacity goes to the storage
pub record Params : Type 0 where
  pub total_producers : ℤ
  pub total_consumers : ℤ
  pub storage_capacity : ℤ
  pub verbose : ℤ
  pub parallel_start : Bool
  pub wait_factor_p : ℤ
  pub wait_factor_c : ℤ

abbrev pub defaults : Params
defaults = record {
  total_producers = pos 2;
  total_consumers = pos 1;
  storage_capacity = pos 5;
  verbose = pos 0;
  parallel_start = false;
  wait_factor_p = pos 1;
  wait_factor_c = pos 1;
}

-- what getopt returns
pub data Param : Type 0 where
  opt_c opt_p opt_s opt_wait_c opt_wait_p : ℤ → Param
  opt_w opt_v opt_q opt_h unknown : Param

-- `if (n < low || n > high) exit(2)`
abbrev pub reject_outside : ℤ → ℤ → ℤ → Act Params (Unit {0})
reject_outside low high n = when (ltb_ℤ n low || ltb_ℤ high n) (exit 2)

-- the cases of the switch in eval_params
unfoldable pub eval_param : Param → Act Params (Unit {0})
eval_param (opt_c n) = do
  modify (λ p. record p { total_consumers = n })
  reject_outside (pos 1) (pos max_consumers) n
eval_param (opt_p n) = do
  modify (λ p. record p { total_producers = n })
  reject_outside (pos 1) (pos max_producers) n
eval_param (opt_s n) = do
  modify (λ p. record p { storage_capacity = n })
  reject_outside (pos 1) (pos max_storage_capacity) n
eval_param opt_w = modify (λ p. record p { parallel_start = true })
eval_param opt_v = modify (λ p. record p {
  verbose = if ltb_ℤ p.verbose (pos 100) then p.verbose +ℤ pos 1 else p.verbose;
})
eval_param opt_q =
    modify (λ p. record p {
      verbose = if ltb_ℤ (pos 0) p.verbose then p.verbose -ℤ pos 1 else p.verbose;
    })
eval_param (opt_wait_c n) = do
  modify (λ p. record p { wait_factor_c = n })
  reject_outside (pos 0) (pos 1000) n
eval_param (opt_wait_p n) = do
  modify (λ p. record p { wait_factor_p = n })
  reject_outside (pos 0) (pos 1000) n
eval_param opt_h = exit 0
eval_param unknown = exit 2

unfoldable pub eval_params : List Param → Act Params (Unit {0})
eval_params [] = skip
eval_params (o ∷ os) = let rest = eval_params os in do eval_param o; rest

-- the storage before the threads start
abbrev pub empty_storage : (capacity : ℕ) → Storage
empty_storage capacity = record {
  buf = replicate max_storage_capacity empty_space_item;
  capacity = capacity;
  in_ = 0;
  out = 0;
  count = pos 0;
}

-- "put given item to the storage and increment index pointer"
unfoldable pub put : ℕ → Storage → Storage
put item s = record s {
  buf = set s.buf s.in_ item;
  in_ = (s.in_ + 1) % s.capacity;
  count = s.count +ℤ pos 1;
}

-- "get item from the storage"
unfoldable pub get : Storage → ℕ × Storage
get s = (
  get_or s.buf s.out empty_space_item,
  record s { out = (s.out + 1) % s.capacity; count = s.count -ℤ pos 1 },
)

-- the loop of a producer with its items, when no other thread runs
unfoldable pub produce : List ℕ → Storage → Storage
produce [] s = s
produce (x ∷ xs) s = produce xs (put x s)

-- the special producer, for `consumers` consumers
unfoldable pub terminate : (consumers : ℕ) → Storage → Storage
terminate consumers s = produce (replicate consumers quit_item) s

-- The loop of a consumer, with what it prints, when no other thread runs; `none` when it has taken
-- `fuel` items and no QUIT_ITEM.
unfoldable pub consume : (fuel : ℕ) → Storage → Option (List ℕ × Storage)
consume zero s = none
consume (suc fuel) s =
    let (item, t) = get s in
    let rest = consume fuel t in
    if item == quit_item
    then some ([], t)
    else elim rest [ none ↦ none | some r ↦ some (item ∷ r.0, r.1) ]
