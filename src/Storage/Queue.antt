-- ===== src/Storage/Queue.antt =====
-- The cyclic buffer of producer_consumer.c as a queue of bounded length.
use nnos.Prelude.{
  ℕ, zero, suc, ◌+◌, ◌-◌, ◌%◌, ◌≤◌, ◌<◌, ◌≡◌, ◌≢◌, ◌∙◌, ap, sym, refl, ◌⊎◌, inl, inr, Bool, false,
  List, [], ◌∷◌, ◌++◌, some, length, length-append, get_elem?, get_or, get_or-set_self,
  get_or-set_ne, length-set, ◌==◌, ◌||◌, arith, dec_lt, length-replicate,
}
use nnos.Prelude.Int.{pos, ◌+ℤ◌, ◌-ℤ◌}
use mathlib.Core.List.{append-nil, append_assoc}
use native.Mathlib.Nat.{mod-lt, mod-eq_of_lt, mod-eq-sub-mod, mod-add-mod}
use nnos.Storage.{
  Storage, put, get, produce, terminate, consume, quit_item, empty_space_item, empty_storage,
  max_storage_capacity,
}

-- the storage holds the items of a list, the oldest first
pub record Represents (s : Storage) (xs : List ℕ) : Type 0 where
  pub out_bound : s.out < s.capacity
  pub in_buffer : s.capacity ≤ length s.buf
  pub fits : length xs ≤ s.capacity
  pub counted : s.count ≡ pos (length xs)
  pub next : s.in_ ≡ (s.out + length xs) % s.capacity
  pub stored :
      (i x : ℕ)
      → get_elem? xs i ≡ some x
      → get_or s.buf ((s.out + i) % s.capacity) empty_space_item ≡ x

bound_of_get : (xs : List ℕ) (i x : ℕ) → get_elem? xs i ≡ some x → i < length xs
bound_of_get [] i x h = cc
bound_of_get (y ∷ xs) zero x h = omega arith
bound_of_get (y ∷ xs) (suc i) x h = omega (arith, bound_of_get xs i x h)

snoc_cases :
    (xs : List ℕ) (x i y : ℕ)
    → get_elem? (xs ++ x ∷ []) i ≡ some y
    → ((i ≡ length xs) × (y ≡ x)) ⊎ (get_elem? xs i ≡ some y)
snoc_cases [] x zero y h = inl (refl, cc)
snoc_cases [] x (suc i) y h = cc
snoc_cases (z ∷ xs) x zero y h = inr h
snoc_cases (z ∷ xs) x (suc i) y h = elim (snoc_cases xs x i y h) [
  | inl (e, q) ↦ inl (omega (arith, e), q)
  | inr q ↦ inr q
]

-- two places less than one turn apart are different
places_apart : (out cap i j : ℕ) → out < cap → i < j → j < cap → (out + j) % cap ≢ (out + i) % cap
places_apart out cap i j o lt c e = elim (dec_lt (out + j) cap) [
  | yes low ↦
      let a : (out + j) % cap ≡ out + j = mod-eq_of_lt low in
      let b : (out + i) % cap ≡ out + i = mod-eq_of_lt (omega (arith, low)) in
      omega (arith, a, b, e)
  | no high ↦
      let a : (out + j) % cap ≡ out + j - cap =
        mod-eq-sub-mod (omega (arith, high)) ∙ mod-eq_of_lt (omega (arith, high)) in
      elim (dec_lt (out + i) cap) [
        | yes below ↦
            let b : (out + i) % cap ≡ out + i = mod-eq_of_lt below in omega (arith, a, b, e, high)
        | no above ↦
            let b : (out + i) % cap ≡ out + i - cap =
              mod-eq-sub-mod (omega (arith, above)) ∙ mod-eq_of_lt (omega (arith, above)) in
            omega (arith, a, b, e, high, above)
      ]
]

count_up : (n : ℕ) → pos n +ℤ pos 1 ≡ pos (n + 1)
unfolding ◌+ℤ◌
count_up n = ground arith

count_down : (n : ℕ) → pos (suc n) -ℤ pos 1 ≡ pos n
unfolding ◌-ℤ◌
count_down n = ground arith

-- A producer's item goes to the end of the queue, as long as the storage is not full.
pub put-Represents :
    (s : Storage) (xs : List ℕ) (x : ℕ)
    → Represents s xs
    → length xs < s.capacity
    → Represents (put x s) (xs ++ x ∷ [])
unfolding put
put-Represents s xs x r room = record {
  out_bound = r.out_bound;
  in_buffer = omega (arith, r.in_buffer, length-set s.buf s.in_ x);
  fits = omega (arith, longer);
  counted = rw r.counted (count_up (length xs) ∙ ap pos (sym longer));
  next =
      rw (r.next, longer)
        (mod-add-mod (s.out + length xs) s.capacity 1 ∙ ap (λ n. n % s.capacity) (omega arith));
  stored = λ i y e. elim (snoc_cases xs x i y e) [
    | inl (last, same) ↦
        rw (last, same, ← r.next)
          (get_or-set_self s.buf s.in_ x empty_space_item (omega (arith, inside, r.in_buffer)))
    | inr old ↦
        get_or-set_ne s.buf x empty_space_item (λ q.
          places_apart s.out s.capacity i (length xs) r.out_bound (bound_of_get xs i y old) room
            (sym r.next ∙ q))
        ∙ r.stored i y old
  ];
}
  where
    longer : length (xs ++ x ∷ []) ≡ length xs + 1
    longer = length-append xs (x ∷ [])

    inside : s.in_ < s.capacity
    inside = rw r.next (mod-lt (s.out + length xs) (omega (arith, r.out_bound)))

-- A consumer takes the oldest item, which leaves the queue, if the storage is not empty.
pub get-Represents :
    (s : Storage) (x : ℕ) (xs : List ℕ)
    → Represents s (x ∷ xs)
    → ((get s).0 ≡ x) × Represents (get s).1 xs
unfolding get
get-Represents s x xs r = (
  ap (λ i. get_or s.buf i empty_space_item)
        (sym (mod-eq_of_lt r.out_bound) ∙ ap (λ n. n % s.capacity) (omega arith))
      ∙ r.stored 0 x refl,
  record {
    out_bound = mod-lt (s.out + 1) (omega (arith, r.out_bound));
    in_buffer = r.in_buffer;
    fits = omega (arith, r.fits);
    counted = rw r.counted (count_down (length xs));
    next =
        r.next
        ∙ sym (
            mod-add-mod (s.out + 1) s.capacity (length xs)
            ∙ ap (λ n. n % s.capacity) (omega arith));
    stored = λ i y e.
        ap (λ n. get_or s.buf n empty_space_item)
          (mod-add-mod (s.out + 1) s.capacity i ∙ ap (λ n. n % s.capacity) (omega arith))
        ∙ r.stored (suc i) y e;
  },
)

-- A producer that runs alone appends its items, if they all fit.
pub produce-Represents :
    (ys : List ℕ) (s : Storage) (xs : List ℕ)
    → Represents s xs
    → length xs + length ys ≤ s.capacity
    → Represents (produce ys s) (xs ++ ys)
unfolding produce put
produce-Represents [] s xs r fits = rw (append-nil xs) r
produce-Represents (y ∷ ys) s xs r fits = rw (sym (append_assoc xs (y ∷ []) ys)) (
    produce-Represents ys (put y s) (xs ++ y ∷ []) (put-Represents s xs y r (omega arith))
      (omega (arith, length-append xs (y ∷ []))))

-- the storage of main at the start
pub empty-Represents : (c : ℕ) → 0 < c → c ≤ max_storage_capacity → Represents (empty_storage c) []
empty-Represents c h b = record {
  out_bound = h;
  in_buffer = omega (arith, length-replicate max_storage_capacity empty_space_item);
  fits = omega arith;
  counted = refl;
  next = sym (mod-eq_of_lt (omega (arith, h)));
  stored = λ i x e. cc;
}

abbrev is_quit : ℕ → Bool
is_quit x = x == quit_item

-- no item of the list ends a consumer
abbrev pub has_quit : List ℕ → Bool
has_quit [] = false
has_quit (x ∷ xs) = is_quit x || has_quit xs

consume_next :
    (s : Storage) (x : ℕ) (xs : List ℕ) (t : Storage) (fuel : ℕ)
    → (get s).0 ≡ x
    → (x == quit_item) ≡ false
    → consume fuel (get s).1 ≡ some (xs, t)
    → consume (suc fuel) s ≡ some (x ∷ xs, t)
unfolding consume
consume_next s x xs t fuel first plain e = ground arith

capacity-produce : (ys : List ℕ) (s : Storage) → (produce ys s).capacity ≡ s.capacity
unfolding produce put
capacity-produce [] s = refl
capacity-produce (y ∷ ys) s = capacity-produce ys (put y s)

-- A consumer that runs alone prints what stands before the first QUIT_ITEM, in order, takes that
-- item too, leaves the rest in the storage, and ends: as many items as it takes are fuel enough.
pub consume-Represents :
    (xs rest : List ℕ) (s : Storage) (fuel : ℕ)
    → Represents s (xs ++ quit_item ∷ rest)
    → has_quit xs ≡ false
    → length xs < fuel
    → (t : Storage) × (consume fuel s ≡ some (xs, t)) × Represents t rest
unfolding consume
consume-Represents xs rest s zero r q h = absurd (omega arith)
consume-Represents [] rest s (suc fuel) r q h =
    let (first, left) = get-Represents s quit_item rest r in ((get s).1, rw first refl, left)
consume-Represents (x ∷ xs) rest s (suc fuel) r q h =
    let (first, left) = get-Represents s x (xs ++ quit_item ∷ rest) r in
    let others : has_quit xs ≡ false = ground arith in
    let plain : (x == quit_item) ≡ false = ground arith in
    let (t, e, v) = consume-Represents xs rest (get s).1 fuel left others (omega arith) in
    (t, consume_next s x xs t fuel first plain e, v)

-- What a producer puts into the empty storage is what a consumer prints, in the same order, after
-- the terminating producer has added its QUIT_ITEM: if there is room for the items and that one, and
-- no item is itself the QUIT_ITEM. The consumer ends and the storage is empty again.
pub produce-consume :
    (c : ℕ) (xs : List ℕ)
    → length xs < c
    → c ≤ max_storage_capacity
    → has_quit xs ≡ false
    → (t : Storage) × (consume (length xs + 1) (terminate 1 (produce xs (empty_storage c)))
        ≡ some (xs, t))
      × Represents t []
unfolding terminate
produce-consume c xs room small plain =
    consume-Represents xs [] (terminate 1 (produce xs (empty_storage c))) (length xs + 1) full plain
      (omega arith)
  where
    full : Represents (terminate 1 (produce xs (empty_storage c))) (xs ++ quit_item ∷ [])
    full =
        produce-Represents (quit_item ∷ []) (produce xs (empty_storage c)) xs
          (produce-Represents xs (empty_storage c) [] (empty-Represents c (omega arith) small)
            (omega arith))
          (omega (arith, capacity-produce xs (empty_storage c), room))
