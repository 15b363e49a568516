-- ===== src/Work/Invariant.antt =====
-- What every schedule of the working threads keeps.
use nnos.Prelude.{ℕ, suc, ◌+◌, ◌≤◌, ◌<◌, ◌≡◌, ◌≢◌, Bool, true, false}
use nnos.Work.{
  Sync, completed, Slot, WorkerPc, begin, announce, Worker, MainPc, await_slot, scan, assign,
  create, launch, store_id, failed, join_results, returned, ResultsPc, test, await_start, join,
  free, signal, collected, is_ended, has_collected, Sys,
}
use nnos.Work.Count.{IsSync, count}

-- it has set the thread_index of its computation
abbrev pub has_begun : WorkerPc → Bool
has_begun begin = false
has_begun _ = true

-- it has posted the start of its computation
abbrev pub has_announced : WorkerPc → Bool
has_announced begin = false
has_announced (announce w) = false
has_announced _ = true

-- the main thread has taken a free thread from the semaphore and not from the array
abbrev pub taking : MainPc → ℕ
taking (scan w i) = 1
taking _ = 0

-- the results thread has freed a thread in the array and not in the semaphore
abbrev pub returning : ResultsPc → ℕ
returning (signal w) = 1
returning _ = 0

-- The thread of computation `k` is taken, and is its own.
pub record Held (num_threads : ℕ) (t : ℕ → Slot) (u : ℕ → Worker) (k : ℕ) : Type 0 where
  pub in_range : (u k).thread_idx < num_threads
  pub taken : (t (u k).thread_idx).available ≡ false
  pub own_id : (t (u k).thread_idx).id ≡ k
  pub own_w : (t (u k).thread_idx).w ≡ k

module _ (num_work num_threads : ℕ) where
  -- how many computations have been collected
  abbrev pub freed : ResultsPc → ℕ
  freed (test w) = w
  freed (await_start w) = w
  freed (join w) = w
  freed (free w) = w
  freed (signal w) = suc w
  freed collected = num_work

  -- The main thread has taken the thread `i` for the computation `w`, and no other one uses it.
  abbrev pub Reserved : (ℕ → Slot) → (ℕ → Worker) → (made : ℕ) → ResultsPc → (w i : ℕ) → Type 0
  Reserved t u made r w i =
      (w ≡ made)
      × (w < num_work)
      × (i < num_threads)
      × ((t i).available ≡ false)
      × ((k : ℕ) → freed r ≤ k → k < made → (u k).thread_idx ≢ i)

  abbrev pub MainOk : (ℕ → Slot) → (ℕ → Worker) → (made : ℕ) → ResultsPc → MainPc → Type 0
  MainOk t u made r (await_slot w) = (w ≡ made) × (w < num_work)
  MainOk t u made r (scan w i) =
      (w ≡ made)
      × (w < num_work)
      × ((j : ℕ) × (i ≤ j) × (j < num_threads) × ((t j).available ≡ true))
  MainOk t u made r (assign w i) = Reserved t u made r w i
  MainOk t u made r (create w i) = Reserved t u made r w i × ((t i).w ≡ made)
  MainOk t u made r (launch w i) = Reserved t u made r w i × ((t i).w ≡ made) × ((t i).id ≡ made)
  MainOk t u made r (store_id w i k) = ⊥
  MainOk t u made r failed = ⊥
  MainOk t u made r join_results = made ≡ num_work
  MainOk t u made r returned = (made ≡ num_work) × (has_collected r ≡ true)

  abbrev pub ResultsOk : (ℕ → Worker) → (made : ℕ) → ResultsPc → Type 0
  ResultsOk u made (test w) = w ≤ num_work
  ResultsOk u made (await_start w) = w < num_work
  ResultsOk u made (join w) = (w < num_work) × (w < made) × (has_announced (u w).pc ≡ true)
  ResultsOk u made (free w) = (w < num_work) × (w < made) × (is_ended (u w).pc ≡ true)
  ResultsOk u made (signal w) = w < num_work
  ResultsOk u made collected = Unit

module _ (y : Sync) (law : IsSync y) (num_work num_threads : ℕ) where
  pub record Inv (s : Sys y) : Type 0 where
    pub slots :
        law.available s.sync + taking s.main + returning s.results ≡ count s.threads num_threads
    pub main_ok : MainOk num_work num_threads s.threads s.workers s.created s.results s.main
    pub results_ok : ResultsOk num_work num_threads s.workers s.created s.results
    pub held :
        (k : ℕ)
        → freed num_work num_threads s.results ≤ k
        → k < s.created
        → Held num_threads s.threads s.workers k
    pub gone :
        (k : ℕ)
        → k < freed num_work num_threads s.results
        → (k < s.created) × (is_ended (s.workers k).pc ≡ true)
    pub index :
        (k : ℕ)
        → k < s.created
        → has_begun (s.workers k).pc ≡ true
        → (s.work k).thread_index ≡ (s.workers k).thread_idx
    pub local : (k w : ℕ) → k < s.created → (s.workers k).pc ≡ announce w → w ≡ k
    pub announced :
        (k : ℕ)
        → 1 ≤ law.running k s.sync
        → (k < s.created) × (has_announced (s.workers k).pc ≡ true)
    pub done_work :
        (k : ℕ) → k < s.created → is_ended (s.workers k).pc ≡ true → (s.work k).state ≡ completed
