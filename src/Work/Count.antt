-- ===== src/Work/Count.antt =====
-- The semaphores of the working threads by their values, and the number of the free threads.
use nnos.Prelude.{
  ℕ, zero, suc, ◌+◌, ◌≤◌, ◌<◌, ◌≡◌, ◌≢◌, inl, inr, refl, Bool, true, false, some, if◌then◌else◌,
  arith, dec_lt, Bool-cases,
}
use nnos.Work.{Sync, Slot, write}

-- the documented behaviour of the semaphores, by their values, and a pthread_create that stores the id
-- of the new thread before that thread runs
pub record IsSync (y : Sync) : Type 0 where
  pub available : y.State → ℕ
  pub running : ℕ → y.State → ℕ
  pub wait_available_lem :
      (s t : y.State)
      → y.wait_available s ≡ some t
      → (available s ≡ available t + 1) × ((k : ℕ) → running k t ≡ running k s)
  pub post_available_lem :
      (s : y.State)
      → (available (y.post_available s) ≡ available s + 1)
        × ((k : ℕ) → running k (y.post_available s) ≡ running k s)
  pub wait_running_lem :
      (w : ℕ) (s t : y.State)
      → y.wait_running w s ≡ some t
      → (running w s ≡ running w t + 1)
        × ((k : ℕ) → k ≢ w → running k t ≡ running k s)
        × (available t ≡ available s)
  pub post_running_lem :
      (w : ℕ) (s : y.State)
      → (running w (y.post_running w s) ≡ running w s + 1)
        × ((k : ℕ) → k ≢ w → running k (y.post_running w s) ≡ running k s)
        × (available (y.post_running w s) ≡ available s)
  pub id_first_lem : y.id_first ≡ true

-- how many of the first `n` threads are available
unfoldable pub count : (ℕ → Slot) → ℕ → ℕ
count f zero = 0
count f (suc n) = count f n + (if (f n).available then 1 else 0)

count-above : (f : ℕ → Slot) (i : ℕ) (x : Slot) (n : ℕ) → n ≤ i → count (write f i x) n ≡ count f n
unfolding count
count-above f i x zero le = refl
count-above f i x (suc n) le = ground (arith, count-above f i x n (omega arith))

abbrev pub bit : Bool → ℕ
bit true = 1
bit false = 0

pub count-write :
    (f : ℕ → Slot) (i : ℕ) (x : Slot) (n : ℕ)
    → i < n
    → count (write f i x) n + bit (f i).available ≡ count f n + bit x.available
unfolding count
count-write f i x zero lt = absurd (omega arith)
count-write f i x (suc n) lt = elim (dec_lt i n) [
  | yes below ↦ ground (arith, count-write f i x n below)
  | no last ↦ ground (arith, count-above f i x n (omega (arith, last)))
]

-- a write that does not change `available`
pub count-same :
    (f : ℕ → Slot) (i : ℕ) (x : Slot) (n : ℕ)
    → x.available ≡ (f i).available
    → count (write f i x) n ≡ count f n
unfolding count
count-same f i x zero e = refl
count-same f i x (suc n) e = ground (arith, count-same f i x n e)

pub count-pos :
    (f : ℕ → Slot) (n : ℕ) → 1 ≤ count f n → (j : ℕ) × (j < n) × ((f j).available ≡ true)
unfolding count
count-pos f zero h = absurd (omega arith)
count-pos f (suc n) h = elim (Bool-cases (f n).available) [
  | inl yes' ↦ (n, omega arith, yes')
  | inr no' ↦ (let (j, lt, e) = count-pos f n (ground arith) in (j, omega (arith, lt), e))
]
