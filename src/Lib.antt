-- ===== src/Lib.antt =====
-- The critical sections, the synchronized threads, the echo server and the route tracer of the
-- repository.
--
-- The repository is a collection of small C programs on operating systems. This development
-- models those that are more than a call of the library:
--
--   file               code
--   Kernel             the synchronization calls behind the headers: `Os` is what a caller sees of
--                      pthreads, POSIX and System V, `Contract` is their documented behaviour
--   Section            everything.h: cs_init, cs_destroy, cs_enter and cs_leave for its ten methods.
--                      `Cs` is the globals; cs_enter is one step at a time (`enter_step`), since a
--                      busy wait tests and sets in more than one access
--   Section/Variants   locked_testAset_xchng.h, mutex_sem_namedSem.h, sem_sysv.h,
--                      messageQueue_posix.h and messageQueue_sysV.h, which have the same four
--                      functions, each for a part of the methods
--   Lock               what the bank's threads need of cs_enter and cs_leave: a lock and its laws
--   Bank               04-critical_section/CPUtime/v2021/bank_deposit_CPUtime.c: eval_args,
--                      deposit_money, bank_deposit and main; the bodies of cs_methods.h are left to
--                      the reader, so that cs_init and the lock are parameters;
--                      Template is cs_methods.h as it stands
--   Deposit            04-critical_section/bank_deposit.c and new/bank_deposit.c, which leave the
--                      critical section to the reader: eval_args, bank_deposit and main, without any lock
--   Peterson           04-critical_section/bank_transactions_Peterson.c: both threads, the start of
--                      main and its verdict; a machine that delays its writes (Smp)
--   Storage            05-synchronization/producer_consumer.c: eval_params, producer, consumer,
--                      and the storage against a bounded queue (Refines)
--   Order              05-synchronization/sync_assignment_cond.c: f1, f2 and main, one call at a time
--   Counter            05-synchronization/sync_cond_var.c: inc_count and watch_count
--   Work               05-synchronization/sync_working_threads_partial_sem.c: parse_options, do_all
--                      with get_available_thread, results_thread and working_thread
--   Traceroute         07-sockets/traceroute/successive_traceroute: options.c (Options), ip_stuff.c
--                      (Probe, Hop and Memory) and traceroute.c (Hop, Memory)
--   Traceroute/Basic   07-sockets/traceroute/basic_traceroute/traceroute.c: main's options (Options),
--                      one probe (Probe), traceroute_init and do_traceroute with its output (Run)
--   Traceroute/Threaded
--                      07-sockets/traceroute/threaded_traceroute_partial_mq_sem/ip_stuff.c: one
--                      probe, where it differs from successive_traceroute
--   Echo               07-sockets/multi-client-echo-server.c: the loop over the addresses (Listen) and
--                      the select loop
--   Prelude            the shared helpers: integers, lists, tests and C functions that may exit
--
-- The parts meet in this way: Bank is a client of `Lock`, Section fills `Lock` for every method
-- that protects (Section/AsLock), though the file itself includes another header, and Section
-- itself calls `Os`. The older headers are compared with everything.h step by step. Where threads
-- run at once (Bank, Deposit, Peterson, Order, Counter, Work) a schedule is a list of moves, each
-- of one thread between two accesses to shared memory, and a theorem is about every schedule, but
-- for the wakeups and orders that it excludes. An access takes effect at once, as on one
-- processor or under a lock; Peterson.h says that the plain algorithm fails on SMP systems, and
-- Peterson/Smp models such a machine.
--
-- Calls of the system and of the library are parameters. For the headers they are `Os`, and the
-- theorems that need their behaviour take `Contract`; Kernel/Simple is an operating system that
-- keeps it; for the echo server they are `Net` with `NetLaw`; for the working threads they are
-- the semaphores, `Sync` with `IsSync`, whose calls the file leaves to the reader, and whether
-- pthread_create stores the id before the new thread runs (glibc) or after, as POSIX allows too.
-- In the route tracer they are inputs: for each probe the results of its calls (`Sending`), and
-- one `Turn` for each round of poll and recvmsg; what getnameinfo writes is `NameInfo`. `double`
-- is a parameter with its order (`Double`).
--
-- Numbers are the native natural numbers, or integers over them. Sums of `unsigned int` and
-- `in_port_t` wrap where the code can reach the bound: the count of the transactions in Bank and
-- the ports in Traceroute. Other values of `int` are unbounded, as the options keep them small,
-- and so is `long long`, though atoll takes any number after -a, -f and -s of the bank: a signed
-- overflow, which C leaves undefined, does not occur here; only the first TTL of basic_traceroute
-- has no bound, and its product with the number of probes is taken as a number here.
--
-- Fuel: the loop over the descriptors of the echo server has one unit more than dtsize, which
-- dsize does not exceed; its endless loop is run for any number of rounds. consume takes one unit
-- for each item, and produce-consume gives one more than there are items. do_traceroute runs its
-- max_ttl * probes rounds, that of basic_traceroute its hops from the first TTL to the last, and
-- a wait runs on the list of its turns. cs_enter_from takes one unit for each step of cs_enter; a
-- thread that is alone makes at most two.
--
-- Not modelled: what is printed (but for the lines of basic_traceroute), the time measurements,
-- signals and delays; the programs that only show one call of the system (01-processes,
-- 02-signals, 03-pthreads, 06-messages, 08-shared_memory, 09-exploits); the other exercises whose
-- synchronization is left to the reader; older copies of a program that is modelled; and the
-- monitors in Java and C#.
pub mod Bank
pub mod Counter
pub mod Deposit
pub mod Echo
pub mod Kernel
pub mod Lock
pub mod Order
pub mod Peterson
pub mod Prelude
pub mod Section
pub mod Storage
pub mod Traceroute
pub mod Work
