-- ===== src/Kernel/Simple.antt =====
-- A small operating system that keeps the contract: each kind of object exists once.
use nnos.Kernel.{Os, Contract, Call, Object, mutex, sem, named, sysv, queue, msgs, takes, gives}
use nnos.Prelude.{ℕ, zero, suc, ◌+◌, ◌≡◌, refl, Option, none, some, arith, ◌∙◌}
use nnos.Prelude.Int.{ℤ, pos}

pub record Units : Type 0 where
  pub lock : ℕ
  pub sema : ℕ
  pub name : ℕ
  pub sys : ℕ
  pub mails : ℕ
  pub notes : ℕ

abbrev pub units_of : Object → Units → ℕ
units_of mutex w = w.lock
units_of sem w = w.sema
units_of (named _) w = w.name
units_of (sysv _) w = w.sys
units_of (queue _) w = w.mails
units_of (msgs _) w = w.notes

abbrev pub put : Object → ℕ → Units → Units
put mutex n w = record w { lock = n }
put sem n w = record w { sema = n }
put (named _) n w = record w { name = n }
put (sysv _) n w = record w { sys = n }
put (queue _) n w = record w { mails = n }
put (msgs _) n w = record w { notes = n }

abbrev pub take_from : Object → Units → ℕ → Option (ℤ × Units)
take_from o w zero = none
take_from o w (suc n) = some (pos 0, put o n w)

-- every call that is no taking or giving
abbrev pub create : Call → Units → Option (ℤ × Units)
create Call.mutex_init w = some (pos 0, record w { lock = 1 })
create (Call.sem_init p n) w = some (pos 0, record w { sema = n })
create (Call.semctl_setval id i n) w = some (pos 0, record w { sys = n })
create (Call.mq_open a) w = some (pos 3, record w { mails = 0 })
create Call.msgget w = some (pos 4, record w { notes = 0 })
create _ w = some (pos 0, w)

abbrev pub give_or_create : Option Object → Call → Units → Option (ℤ × Units)
give_or_create none c w = create c w
give_or_create (some o) c w = some (pos 0, put o (units_of o w + 1) w)

abbrev pub serve : Option Object → Call → Units → Option (ℤ × Units)
serve none c w = give_or_create (gives c) c w
serve (some o) c w = take_from o w (units_of o w)

abbrev pub simple : Os
simple = record {
  World = Units;
  call = λ c w. serve (takes c) c w;
  sem_open = λ e n w. (some 7, record w { name = n });
}

abbrev pub boot : Units
boot = record { lock = 0; sema = 0; name = 0; sys = 0; mails = 0; notes = 0 }

units-put : (o : Object) (n : ℕ) (w : Units) → units_of o (put o n w) ≡ n
units-put mutex n w = refl
units-put _ n w = refl

pub take_blocks :
    (c : Call) (o : Object) (w : Units)
    → takes c ≡ some o
    → units_of o w ≡ 0
    → serve (takes c) c w ≡ none
take_blocks c o w t e = rw (t, e)

pub take_one :
    (c : Call) (o : Object) (w : Units) (n : ℕ)
    → takes c ≡ some o
    → units_of o w ≡ suc n
    → (r : ℤ) × (v : Units) × (serve (takes c) c w ≡ some (r, v)) × (units_of o v ≡ n)
take_one c o w n t e = (pos 0, put o n w, rw (t, e), units-put o n w)

-- no call takes and gives
gives-takes : (c : Call) (o : Object) → gives c ≡ some o → takes c ≡ none
gives-takes Call.mutex_init o g = cc
gives-takes (Call.semop id b) o g = ground arith
gives-takes (Call.msgrcv id type) o g = cc
gives-takes _ o g = ground arith

pub give_one :
    (c : Call) (o : Object) (w : Units)
    → gives c ≡ some o
    → units_of o w ≡ 0
    → (r : ℤ) × (v : Units) × (serve (takes c) c w ≡ some (r, v)) × (units_of o v ≡ 1)
give_one c o w g e = (
  pos 0,
  put o (units_of o w + 1) w,
  rw (gives-takes c o g, g),
  units-put o (units_of o w + 1) w ∙ rw e,
)

-- the small system keeps the contract
unfoldable pub simple-Contract : Contract simple
simple-Contract = record {
  units = units_of;
  take_blocks = take_blocks;
  take_one = take_one;
  give_one = give_one;
  mutex_init_units = λ w v e. ground arith;
  sem_init_units = λ n w v e. ground arith;
  sem_open_units = λ n h w e. ground arith;
  sem_unlink_units = λ h r w v e. ground arith;
  setval_units = λ id n r w v e ne. ground arith;
  mq_open_units = λ a id w v e ne. ground arith;
  mq_unlink_units = λ id r w v e. ground arith;
  msgget_units = λ id w v e ne. ground arith;
}
