-- ===== src/Section/Example.antt =====
-- A process over everything.h on the small operating system, for the tests.
use nnos.Prelude.{◌≡◌, refl, true, false, none, done}
use nnos.Prelude.Int.{pos, negsuc}
use nnos.Kernel.Simple.{simple, boot}
use nnos.Section.{Globals, cs_init, init_method}

-- before cs_init
abbrev pub booted : Globals simple
booted = record {
  locked = false;
  locked_atomic = false;
  cs_named_sem = none;
  sem_op_enter = record { sem_num = 0; sem_op = pos 0 };
  sem_op_leave = record { sem_num = 0; sem_op = pos 0 };
  sysv_semid = pos 0;
  message_queue = pos 0;
  mq_attributes = record { mq_flags = 0; mq_maxmsg = 0; mq_msgsize = 0; mq_curmsgs = 0 };
  mq_sysv = pos 0;
  msg_type = pos 0;
  cs_method_used = negsuc 0;
  cs_var_allocated = false;
  errno = pos 0;
  world = boot;
}

-- after cs_init of CS_METHOD_MUTEX
abbrev pub opened : Globals simple
opened = record booted {
  cs_method_used = pos 4;
  cs_var_allocated = true;
  world = record boot { lock = 1 };
}

pub opened_lem : cs_init simple (pos 4) booted ≡ done tt opened
unfolding cs_init init_method
opened_lem = refl
