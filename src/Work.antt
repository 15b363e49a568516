-- ===== src/Work.antt =====
-- 05-synchronization/sync_working_threads_partial_sem.c: the main thread gives each computation to a
-- free working thread, and the results thread joins them in their order. The file declares its
-- semaphores and leaves their calls to the reader, at the places that its comments name: they are the
-- parameter `Sync`, as is the moment at which pthread_create stores the new thread's id. The options
-- are in Work/Options. Texts, measured times and the result of a computation, which is a time, are left
-- out; calloc succeeds, and pthread_create makes a thread. The arrays are functions of the index. Each
-- write to shared memory is a step of its own, with the reads before it; but `arg`, which is always the
-- index, has no step, and `state` is set to THREAD_ALLOCATED in the step that reads it, as no other
-- thread does that.
pub mod Count
pub mod Invariant
mod MainSteps
mod ResultsSteps
mod WorkerSteps
pub mod Safety
mod Balance
mod Measure
pub mod Progress
pub mod Options
mod Tests
use nnos.Prelude.{
  ℕ, zero, suc, ◌+◌, Bool, true, false, Option, none, some, if◌then◌else◌, ltb, ◌==◌, List, [], ◌∷◌,
}

-- the calls on the semaphores, `none` while the caller waits, and pthread_create: whether it stores the
-- id of the new thread before that thread runs, as glibc does, or after; POSIX allows both
pub record Sync : Type 1 where
  pub State : Type 0
  pub wait_available : State → Option State  -- threads_available
  pub post_available : State → State
  pub wait_running : ℕ → State → Option State  -- work[w].thread_running
  pub post_running : ℕ → State → State
  pub id_first : Bool

pub data WorkState : Type 0 where
  idle busy completed : WorkState

-- struct work_t
pub record Work : Type 0 where
  pub thread_index : ℕ
  pub state : WorkState

-- struct threads_t: `id` is the number of the working thread, in the order of their creation; `arg` is
-- always the index
pub record Slot : Type 0 where
  pub available : Bool
  pub id : ℕ
  pub w : ℕ

pub data WorkerPc : Type 0 where
  begin : WorkerPc  -- before work[w].thread_index = thread_idx
  announce : (w : ℕ) → WorkerPc  -- before the post of thread_running
  set_busy : WorkerPc
  set_done : WorkerPc  -- after do_work
  ended : WorkerPc

pub record Worker : Type 0 where
  pub thread_idx : ℕ
  pub pc : WorkerPc

-- the main thread in the loop of do_all, with its w
pub data MainPc : Type 0 where
  await_slot : (w : ℕ) → MainPc  -- in get_available_thread
  scan : (w i : ℕ) → MainPc  -- its loop over the threads
  assign : (w thread_index : ℕ) → MainPc  -- before threads[thread_index].w = w
  create : (w thread_index : ℕ) → MainPc  -- in pthread_create
  launch : (w thread_index : ℕ) → MainPc  -- in it, after the store of the id
  store_id : (w thread_index k : ℕ) → MainPc  -- in it, after the start of the k-th thread
  failed : MainPc  -- exit(EXIT_FAILURE)
  join_results : MainPc
  returned : MainPc

-- results_thread, with its w
pub data ResultsPc : Type 0 where
  test : (w : ℕ) → ResultsPc  -- w < num_work
  await_start : (w : ℕ) → ResultsPc
  join : (w : ℕ) → ResultsPc
  free : (w : ℕ) → ResultsPc  -- state = THREAD_AVAILABLE
  signal : (w : ℕ) → ResultsPc  -- the post of threads_available
  collected : ResultsPc

abbrev pub write : {A : Type 0} → (ℕ → A) → ℕ → A → ℕ → A
write f i v j = if j == i then v else f j

abbrev pub is_ended : WorkerPc → Bool
is_ended ended = true
is_ended _ = false

abbrev pub has_collected : ResultsPc → Bool
has_collected collected = true
has_collected _ = false

-- whose turn it is
pub data Turn : Type 0 where
  main results : Turn
  worker : (k : ℕ) → Turn

module _ (y : Sync) where
  pub record Sys : Type 0 where
    pub sync : y.State
    pub threads : ℕ → Slot
    pub work : ℕ → Work
    pub workers : ℕ → Worker
    pub created : ℕ  -- how many working threads there have been
    pub main : MainPc
    pub results : ResultsPc

  module _ (num_work num_threads : ℕ) where
    abbrev pub next_work : ℕ → MainPc
    next_work w = if ltb w num_work then await_slot w else join_results

    -- a new working thread, and where the main thread goes on
    abbrev pub started : ℕ → MainPc → Sys → Sys
    started i p s = record s {
      workers = write s.workers s.created (record { thread_idx = i; pc = begin });
      created = s.created + 1;
      main = p;
    }

    -- get_available_thread and the loop of do_all
    unfoldable pub step_main : MainPc → Sys → Sys
    step_main (await_slot w) s = elim (y.wait_available s.sync) [
      | none ↦ s
      | some q ↦ record s { sync = q; main = scan w 0 }
    ]
    step_main (scan w i) s =
        if ltb i num_threads
        then (if (s.threads i).available
            then record s {
              threads = write s.threads i (record (s.threads i) { available = false });
              main = assign w i;
            }
            else record s { main = scan w (i + 1) })
        else record s { main = failed }
    step_main (assign w i) s = record s {
      threads = write s.threads i (record (s.threads i) { w = w });
      main = create w i;
    }
    step_main (create w i) s =
        if y.id_first
        then record s {
          threads = write s.threads i (record (s.threads i) { id = s.created });
          main = launch w i;
        }
        else started i (store_id w i s.created) s
    step_main (launch w i) s = started i (next_work (w + 1)) s
    step_main (store_id w i k) s = record s {
      threads = write s.threads i (record (s.threads i) { id = k });
      main = next_work (w + 1);
    }
    step_main failed s = s
    step_main join_results s = if has_collected s.results then record s { main = returned } else s
    step_main returned s = s

    abbrev pub joined : Sys → ℕ → ℕ
    joined s w = (s.threads (s.work w).thread_index).id

    -- results_thread
    unfoldable pub step_results : ResultsPc → Sys → Sys
    step_results (test w) s = record s {
      results = if ltb w num_work then await_start w else collected;
    }
    step_results (await_start w) s = elim (y.wait_running w s.sync) [
      | none ↦ s
      | some q ↦ record s { sync = q; results = join w }
    ]
    step_results (join w) s =
        if is_ended (s.workers (joined s w)).pc then record s { results = free w } else s
    step_results (free w) s =
        let i = (s.work w).thread_index in
        record s {
          threads = write s.threads i (record (s.threads i) { available = true });
          results = signal w;
        }
    step_results (signal w) s = record s { sync = y.post_available s.sync; results = test (w + 1) }
    step_results collected s = s

    abbrev pub now_at : Sys → ℕ → WorkerPc → Sys
    now_at s k p = record s { workers = write s.workers k (record (s.workers k) { pc = p }) }

    abbrev pub set_state : Sys → ℕ → WorkState → Sys
    set_state s w x = record s { work = write s.work w (record (s.work w) { state = x }) }

    -- working_thread, for the k-th thread created; threads[thread_idx].w is read anew each time
    unfoldable pub step_worker : ℕ → WorkerPc → Sys → Sys
    step_worker k begin s =
        let i = (s.workers k).thread_idx in
        let w = (s.threads i).w in
        now_at (record s { work = write s.work w (record (s.work w) { thread_index = i }) }) k
          (announce w)
    step_worker k (announce w) s = now_at (record s { sync = y.post_running w s.sync }) k set_busy
    step_worker k set_busy s =
        now_at (set_state s (s.threads (s.workers k).thread_idx).w busy) k set_done
    step_worker k set_done s =
        now_at (set_state s (s.threads (s.workers k).thread_idx).w completed) k ended
    step_worker k ended s = s

    unfoldable pub step : Sys → Turn → Sys
    step s main = step_main s.main s
    step s results = step_results s.results s
    step s (worker k) = if ltb k s.created then step_worker k (s.workers k).pc s else s

    unfoldable pub run : List Turn → Sys → Sys
    run [] s = s
    run (t ∷ ts) s = run ts (step s t)

    -- init_work, and the threads as do_all starts with them
    abbrev pub start : y.State → Sys
    start q = record {
      sync = q;
      threads = λ i. record { available = true; id = 0; w = 0 };
      work = λ w. record { thread_index = 0; state = idle };
      workers = λ k. record { thread_idx = 0; pc = begin };
      created = 0;
      main = next_work 0;
      results = test 0;
    }
