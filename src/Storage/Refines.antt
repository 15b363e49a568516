-- ===== src/Storage/Refines.antt =====
-- The storage against a bounded queue, for the calls of any number of producers and consumers, each of
-- which has put or taken its item before the next one begins.
use nnos.Prelude.{
  ℕ, ◌≡◌, ◌<◌, ◌≤◌, Option, none, some, List, [], ◌∷◌, ◌++◌, if◌then◌else◌, ltb, ltb→lt, length,
  refl, arith, Bool-cases, inl, inr,
}
use mathlib.Core.Path.{subst}
use nnos.Storage.{Storage, put, get, empty_storage, max_storage_capacity}
use nnos.Storage.Queue.{Represents, put-Represents, get-Represents, empty-Represents}

-- what a producer or a consumer does to the storage
pub data Turn : Type 0 where
  puts : ℕ → Turn
  gets : Turn

-- the turns on the storage, with the items that the consumers get
unfoldable pub take_turns : List Turn → Storage → List ℕ × Storage
take_turns [] s = ([], s)
take_turns (puts x ∷ ts) s = take_turns ts (put x s)
take_turns (gets ∷ ts) s = let (x, t) = get s in let (xs, u) = take_turns ts t in (x ∷ xs, u)

abbrev with_item : ℕ → Option (List ℕ × List ℕ) → Option (List ℕ × List ℕ)
with_item x none = none
with_item x (some (out, q)) = some (x ∷ out, q)

-- The same turns on a queue of at most `cap` items: `none` where a producer finds it full or a
-- consumer finds it empty.
unfoldable pub queue_turns : (cap : ℕ) → List Turn → List ℕ → Option (List ℕ × List ℕ)
queue_turns cap [] q = some ([], q)
queue_turns cap (puts x ∷ ts) q =
    let rest = queue_turns cap ts (q ++ x ∷ []) in if ltb (length q) cap then rest else none
queue_turns cap (gets ∷ ts) [] = none
queue_turns cap (gets ∷ ts) (x ∷ q) = with_item x (queue_turns cap ts q)

-- the storage has handed out what the queue has, and holds what the queue holds
abbrev Agrees : Option (List ℕ × List ℕ) → List ℕ × Storage → Type 0
Agrees none p = Unit
Agrees (some (out, q)) p = (p.0 ≡ out) × Represents p.1 q

with_item-Agrees :
    (x y : ℕ) (r : Option (List ℕ × List ℕ)) (p : List ℕ × Storage)
    → y ≡ x
    → Agrees r p
    → Agrees (with_item x r) (y ∷ p.0, p.1)
with_item-Agrees x y none p e h = tt
with_item-Agrees x y (some (out, q)) p e (same, holds) = (rw (e, same) refl, holds)

module _ (cap : ℕ) where
  take_turns-Agrees :
      (ts : List Turn) (s : Storage) (q : List ℕ)
      → s.capacity ≡ cap
      → Represents s q
      → Agrees (queue_turns cap ts q) (take_turns ts s)
  unfolding take_turns queue_turns put get
  take_turns-Agrees [] s q c r = (refl, r)
  take_turns-Agrees (puts x ∷ ts) s q c r = elim (Bool-cases (ltb (length q) cap)) [
    | inl room ↦ rw room (
        take_turns-Agrees ts (put x s) (q ++ x ∷ []) c
          (put-Represents s q x r (omega (arith, c, ltb→lt (length q) cap room))))
    | inr full ↦ rw full tt
  ]
  take_turns-Agrees (gets ∷ ts) s [] c r = tt
  take_turns-Agrees (gets ∷ ts) s (x ∷ q) c r =
      let (first, left) = get-Represents s x q r in
      with_item-Agrees x (get s).0 (queue_turns cap ts q) (take_turns ts (get s).1) first
        (take_turns-Agrees ts (get s).1 q c left)

  -- Whenever producers find room and consumers find an item, as in a queue of the storage's capacity,
  -- the consumers get from the storage what they get from that queue, and the storage holds what the
  -- queue holds, if the capacity is from 1 to 20.
  pub storage_is_queue :
      (ts : List Turn) (out rest : List ℕ)
      → 0 < cap
      → cap ≤ max_storage_capacity
      → queue_turns cap ts [] ≡ some (out, rest)
      → ((take_turns ts (empty_storage cap)).0 ≡ out)
        × Represents (take_turns ts (empty_storage cap)).1 rest
  storage_is_queue ts out rest low high e =
      subst (λ r. Agrees r (take_turns ts (empty_storage cap))) e
        (take_turns-Agrees ts (empty_storage cap) [] refl (empty-Represents cap low high))
