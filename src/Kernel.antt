-- ===== src/Kernel.antt =====
-- The operating system behind everything.h: the synchronization calls of pthreads, POSIX and
-- System V, which are not code of the repository. `Os` is what a caller sees of them, and
-- `Contract` the documented behaviour that the theorems about cs_enter and cs_leave rely on.
pub mod Simple
use nnos.Prelude.{
  ℕ, suc, ◌≡◌, ◌≢◌, Bool, true, false, Option, none, some, if◌then◌else◌, ◌==◌, ◌&&◌,
}
use nnos.Prelude.Int.{ℤ, pos, negsuc, eqb_ℤ}

-- `struct sembuf`, without the flags
pub record Sembuf : Type 0 where
  pub sem_num : ℕ
  pub sem_op : ℤ

-- `struct mq_attr`
pub record MqAttr : Type 0 where
  pub mq_flags : ℕ
  pub mq_maxmsg : ℕ
  pub mq_msgsize : ℕ
  pub mq_curmsgs : ℕ

-- The calls that return a number, with the arguments that the source varies.
pub data Call : Type 0 where
  mutex_init mutex_destroy mutex_lock mutex_unlock : Call
  sem_init : (pshared value : ℕ) → Call
  sem_destroy sem_wait sem_post sem_unlink : Call
  named_wait named_post sem_close : Option ℕ → Call
  semget : (ipc_private : Bool) (nsems : ℕ) → Call
  semctl_setval : ℤ → (index value : ℕ) → Call
  semctl_rmid : ℤ → (index : ℕ) → Call
  semop : ℤ → Sembuf → Call
  mq_open : MqAttr → Call
  mq_unlink : Call
  mq_send mq_receive : ℤ → (size : ℕ) → Call
  mq_close : ℤ → Call
  msgget : Call
  msgsnd : ℤ → (msg_type : ℤ) → Call
  msgrcv : ℤ → (msg_type : ℕ) → Call
  msgctl_rmid : ℤ → Call

-- A call that blocks its thread gives `none`; it is made again when the thread is next scheduled.
-- `sem_open` gives a handle or SEM_FAILED; `exclusive` stands for the flag O_EXCL, without which it
-- may open a semaphore that is there already.
pub record Os : Type 1 where
  pub World : Type 0
  pub call : Call → World → Option (ℤ × World)
  pub sem_open : (exclusive : Bool) (value : ℕ) → World → Option ℕ × World

-- What holds units that a thread may take: a mutex holds one or none, a semaphore its value, a
-- queue its messages.
pub data Object : Type 0 where
  mutex sem : Object
  named : Option ℕ → Object
  sysv queue msgs : ℤ → Object

-- the object that a call takes a unit from
abbrev pub takes : Call → Option Object
takes Call.mutex_lock = some mutex
takes Call.sem_wait = some sem
takes (Call.named_wait h) = some (named h)
takes (Call.semop id b) =
    if (b.sem_num == 0) && eqb_ℤ b.sem_op (negsuc 0) then some (sysv id) else none
takes (Call.mq_receive id size) = some (queue id)
takes (Call.msgrcv id type) = if type == 0 then some (msgs id) else none
takes _ = none

-- the object that a call gives a unit to
abbrev pub gives : Call → Option Object
gives Call.mutex_unlock = some mutex
gives Call.sem_post = some sem
gives (Call.named_post h) = some (named h)
gives (Call.semop id b) =
    if (b.sem_num == 0) && eqb_ℤ b.sem_op (pos 1) then some (sysv id) else none
gives (Call.mq_send id size) = some (queue id)
gives (Call.msgsnd id type) = some (msgs id)
gives _ = none

-- The manual pages, for a process that no signal handler interrupts. A mutex is unlocked by its
-- owner only; a message fits its queue.
pub record Contract (os : Os) : Type 0 where
  pub units : Object → os.World → ℕ
  pub take_blocks :
      (c : Call) (o : Object) (w : os.World) → takes c ≡ some o → units o w ≡ 0 → os.call c w ≡ none
  pub take_one :
      (c : Call) (o : Object) (w : os.World) (n : ℕ)
      → takes c ≡ some o
      → units o w ≡ suc n
      → (r : ℤ) × (v : os.World) × (os.call c w ≡ some (r, v)) × (units o v ≡ n)
  pub give_one :
      (c : Call) (o : Object) (w : os.World)
      → gives c ≡ some o
      → units o w ≡ 0
      → (r : ℤ) × (v : os.World) × (os.call c w ≡ some (r, v)) × (units o v ≡ 1)
  pub mutex_init_units :
      (w v : os.World) → os.call Call.mutex_init w ≡ some (pos 0, v) → units mutex v ≡ 1
  pub sem_init_units :
      (n : ℕ) (w v : os.World) → os.call (Call.sem_init 0 n) w ≡ some (pos 0, v) → units sem v ≡ n
  pub sem_open_units :
      (n h : ℕ) (w : os.World)
      → (os.sem_open true n w).0 ≡ some h
      → units (named (some h)) (os.sem_open true n w).1 ≡ n
  pub sem_unlink_units :
      (h : Option ℕ) (r : ℤ) (w v : os.World)
      → os.call Call.sem_unlink w ≡ some (r, v)
      → units (named h) v ≡ units (named h) w
  pub setval_units :
      (id : ℤ) (n : ℕ) (r : ℤ) (w v : os.World)
      → os.call (Call.semctl_setval id 0 n) w ≡ some (r, v)
      → eqb_ℤ r (negsuc 0) ≡ false
      → units (sysv id) v ≡ n
  pub mq_open_units :
      (a : MqAttr) (id : ℤ) (w v : os.World)
      → os.call (Call.mq_open a) w ≡ some (id, v)
      → eqb_ℤ id (negsuc 0) ≡ false
      → units (queue id) v ≡ 0
  pub mq_unlink_units :
      (id r : ℤ) (w v : os.World)
      → os.call Call.mq_unlink w ≡ some (r, v)
      → units (queue id) v ≡ units (queue id) w
  pub msgget_units :
      (id : ℤ) (w v : os.World)
      → os.call Call.msgget w ≡ some (id, v)
      → eqb_ℤ id (negsuc 0) ≡ false
      → units (msgs id) v ≡ 0
