-- ===== src/Echo/Round.antt =====
-- One round of the server: which descriptors are read, and for which connection.
use nnos.Prelude.{
  ℕ, zero, suc, ◌+◌, ◌≡◌, ◌≢◌, ◌≤◌, ◌<◌, true, false, ◌&&◌, Option, none, some, List, [], ◌∷◌, ◌++◌,
  if◌then◌else◌, leb, ◌==◌, refl, sym, ap, ◌∙◌, arith, Bool-cases, inl, inr, ℕ_discrete, dec_lt,
  lt→ltb, done,
}
use mathlib.Core.List.{append-nil, append_assoc}
use nnos.Echo.{
  FdSet, Net, Server, Event, accepted, refused, received, sent, closed, opened, add, after_recv,
  after_send, visit, take, scan, round, is_some,
}
use nnos.Echo.Invariant.{NetLaw, IsServing, visit-cases, visit-IsServing}

-- the connections for which a descriptor was read, as often as that was done
abbrev pub answered : ℕ → List Event → List (Option ℕ)
answered k [] = []
answered k (received sd of _ ∷ es) = let rest = answered k es in if sd == k then of ∷ rest else rest
answered k (closed sd of ∷ es) = let rest = answered k es in if sd == k then of ∷ rest else rest
answered k (_ ∷ es) = answered k es

answered-append :
    (k : ℕ) (xs ys : List Event) → answered k (xs ++ ys) ≡ answered k xs ++ answered k ys
answered-append k [] ys = refl
answered-append k (received sd of bytes ∷ xs) ys = ground (arith, answered-append k xs ys)
answered-append k (closed sd of ∷ xs) ys = ground (arith, answered-append k xs ys)
answered-append k (accepted sd id ∷ xs) ys = answered-append k xs ys
answered-append k (refused sd id ∷ xs) ys = answered-append k xs ys
answered-append k (sent sd of bytes ∷ xs) ys = answered-append k xs ys

-- the descriptor `d` and those above it
read_from :
    (ready : FdSet) (d k : ℕ) (c u : Option ℕ)
    → (d < k → ready k ≡ true → u ≡ c)
    → (if (d == k) && ready d then c ∷ [] else [])
        ++ (if leb (suc d) k && ready k then u ∷ [] else [])
      ≡ (if leb d k && ready k then c ∷ [] else [])
read_from ready d k c u same = elim (ℕ_discrete d k) [
  | yes here ↦ ground (arith, ap ready here)
  | no away ↦ ground (arith, away)
]

module _ (net : Net) (law : NetLaw net) (s dtsize : ℕ) where
  -- what one turn of the loop appends to the log
  abbrev Visited : FdSet → ℕ → Server net → Server net → Type 0
  Visited ready d v t =
      (es : List Event) × (t.log ≡ v.log ++ es)
      × ((k : ℕ) → k ≢ s → answered k es ≡ (if (d == k) && ready d then v.conn k ∷ [] else []))

  after_recv-log :
      (d : ℕ) (v : Server net) (r : Option (List ℕ) × net.World)
      → (es : List Event) × ((after_recv net d r v).log ≡ v.log ++ es)
        × ((k : ℕ) → answered k es ≡ (if d == k then v.conn d ∷ [] else []))
  after_recv-log d v (none, w) = (closed d (v.conn d) ∷ [], refl, λ k. refl)
  after_recv-log d v (some [], w) = (closed d (v.conn d) ∷ [], refl, λ k. refl)
  after_recv-log d v (some (x ∷ xs), w) = sending (net.send d (x ∷ xs) w)
    where
      sending :
          (q : Option ℕ × net.World)
          → (es : List Event) × ((after_send net d (x ∷ xs) q v).log ≡ v.log ++ es)
            × ((k : ℕ) → answered k es ≡ (if d == k then v.conn d ∷ [] else []))
      sending (none, u) = (received d (v.conn d) (x ∷ xs) ∷ [], refl, λ k. refl)
      sending (some n, u) = (
        received d (v.conn d) (x ∷ xs) ∷ sent d (v.conn d) (take n (x ∷ xs)) ∷ [],
        refl,
        λ k. refl,
      )

  add-log :
      (v : Server net) (r : Option ℕ × net.World)
      → (es : List Event) × ((add net dtsize r v).log ≡ v.log ++ es)
        × ((k : ℕ) → answered k es ≡ [])
  add-log v (none, w) = ([], sym (append-nil v.log), λ k. refl)
  add-log v (some cs, w) = elim (Bool-cases (leb dtsize cs)) [
    | inl full ↦ rw full (refused cs v.next ∷ [], refl, λ k. refl)
    | inr room ↦ rw room (accepted cs v.next ∷ [], refl, λ k. refl)
  ]

  visit-Visited :
      (ready : FdSet) (d : ℕ) (v : Server net) → Visited ready d v (visit net s dtsize ready d v)
  visit-Visited ready d v = elim (visit-cases net s dtsize ready d v) [
    | inl (silent, e) ↦ rw e ([], sym (append-nil v.log), λ k ne. ground (arith, silent))
    | inr (inl (asked, here, e)) ↦
        let (es, log, none_read) = add-log v (net.accept (opened net v) v.world) in
        rw e (es, log, λ k ne. none_read k ∙ ground (arith, here))
    | inr (inr (asked, there, e)) ↦
        let (es, log, reads) = after_recv-log d v (net.recv d v.world) in
        rw e (es, log, λ k ne. reads k ∙ ground (arith, asked, ap v.conn {x = d} {y = k}))
  ]

  add-conn :
      (k : ℕ) (v : Server net) (r : Option ℕ × net.World)
      → opened net v k ≡ true
      → ((cs : ℕ) → r.0 ≡ some cs → opened net v cs ≡ false)
      → (add net dtsize r v).conn k ≡ v.conn k
  add-conn k v (none, w) o new = refl
  add-conn k v (some cs, w) o new = elim (Bool-cases (leb dtsize cs)) [
    | inl full ↦ rw full refl
    | inr room ↦ rw room (ground (arith, new cs refl))
  ]

  after_recv-conn :
      (d k : ℕ) (v : Server net) (r : Option (List ℕ) × net.World)
      → k ≢ d
      → (after_recv net d r v).conn k ≡ v.conn k
  after_recv-conn d k v (none, w) ne = ground arith
  after_recv-conn d k v (some [], w) ne = ground arith
  after_recv-conn d k v (some (x ∷ xs), w) ne = sending (net.send d (x ∷ xs) w)
    where
      sending : (q : Option ℕ × net.World) → (after_send net d (x ∷ xs) q v).conn k ≡ v.conn k
      sending (none, u) = refl
      sending (some n, u) = refl

  -- a connection that is open stays with its descriptor while another one is visited
  visit-conn :
      (ready : FdSet) (d k : ℕ) (v : Server net)
      → k ≢ d
      → opened net v k ≡ true
      → (visit net s dtsize ready d v).conn k ≡ v.conn k
  visit-conn ready d k v ne o = elim (visit-cases net s dtsize ready d v) [
    | inl (silent, e) ↦ rw e refl
    | inr (inl (asked, here, e)) ↦ rw e (
        add-conn k v (net.accept (opened net v) v.world) o
          (λ cs new. law.accept_new (opened net v) cs v.world new))
    | inr (inr (asked, there, e)) ↦ rw e (after_recv-conn d k v (net.recv d v.world) ne)
  ]

  -- what the loop over the descriptors makes of the server, from `d` on
  abbrev Scanned : FdSet → ℕ → Server net → Server net → Type 0
  Scanned ready d v t =
      (es : List Event) × (t.log ≡ v.log ++ es)
      × IsServing net s dtsize t
      × ((k : ℕ) → k ≢ s → answered k es ≡ (if leb d k && ready k then v.conn k ∷ [] else []))

  -- Nothing is left to read from `dsize` on.
  scan_end :
      (ready : FdSet) (d : ℕ) (v : Server net)
      → IsServing net s dtsize v
      → ((k : ℕ) → d ≤ k → ready k ≡ true → opened net v k ≡ true)
      → v.dsize ≤ d
      → Scanned ready d v v
  scan_end ready d v i asked past = (
    [],
    sym (append-nil v.log),
    i,
    λ k ne. elim (Bool-cases (leb d k && ready k)) [
      | inl h ↦ absurd (past_end k (ground arith) (ground arith))
      | inr h ↦ rw h refl
    ],
  )
    where
      past_end : (k : ℕ) → d ≤ k → ready k ≡ true → ⊥
      past_end k le r = omega (arith, past, i.below k (i.watched k ∙ asked k le r))

  scan_next :
      (ready : FdSet) (d : ℕ) (v t : Server net)
      → ((k : ℕ) → d ≤ k → ready k ≡ true → opened net v k ≡ true)
      → Scanned ready (suc d) (visit net s dtsize ready d v) t
      → Scanned ready d v t
  scan_next ready d v t asked (es, log, i, reads) =
      let (fs, log', reads') = visit-Visited ready d v in
      (
        fs ++ es,
        log ∙ ap (λ l. l ++ es) log' ∙ append_assoc v.log fs es,
        i,
        λ k ne.
            answered-append k fs es
            ∙ ap (λ l. l ++ answered k es) (reads' k ne)
            ∙ ap (λ l. (if (d == k) && ready d then v.conn k ∷ [] else []) ++ l) (reads k ne)
            ∙ read_from ready d k (v.conn k) _ (λ lt r.
              visit-conn ready d k v (omega (arith, lt)) (asked k (omega (arith, lt)) r)),
      )

  scan-Scanned :
      (fuel : ℕ) (ready : FdSet) (d : ℕ) (v : Server net)
      → 0 < fuel
      → dtsize < fuel + d
      → IsServing net s dtsize v
      → ((k : ℕ) → d ≤ k → ready k ≡ true → opened net v k ≡ true)
      → (t : Server net) × (scan net s dtsize fuel ready d v ≡ some t) × Scanned ready d v t
  unfolding scan
  scan-Scanned zero ready d v some_fuel enough i asked = absurd (omega arith)
  scan-Scanned (suc fuel) ready d v some_fuel enough i asked = elim (dec_lt d v.dsize) [
    | yes more ↦
        let u = visit net s dtsize ready d v in
        let (t, e, r) =
          scan-Scanned fuel ready (suc d) u (omega (arith, more, i.fits)) (omega (arith, enough))
            (visit-IsServing net law s dtsize ready d v i)
            (λ k le asks.
              ap is_some (visit-conn ready d k v (omega arith) (asked k (omega arith) asks))
              ∙ asked k (omega arith) asks) in
        (t, rw (lt→ltb d v.dsize more) e, scan_next ready d v t asked r)
    | no past ↦ (v, ground (arith, past), scan_end ready d v i asked (omega (arith, past)))
  ]

  -- While the server keeps its invariant and select does not fail, a round ends with the invariant
  -- kept, and every descriptor from 3 on but the listening one is read exactly once if select
  -- reported it and never otherwise, for the connection that it stood for when select was called.
  pub round-Answers :
      (v : Server net) (ready : FdSet)
      → IsServing net s dtsize v
      → (net.select v.rfd v.dsize v.world).0 ≡ some ready
      → (t : Server net) × (es : List Event) × (round net s dtsize v ≡ done tt t)
        × (t.log ≡ v.log ++ es)
        × IsServing net s dtsize t
        × ((k : ℕ) → k ≢ s → answered k es ≡ (if leb 3 k && ready k then v.conn k ∷ [] else []))
  unfolding round
  round-Answers v ready i asked =
      let u = record v { world = (net.select v.rfd v.dsize v.world).1 } in
      let j : IsServing net s dtsize u = record {
        watched = i.watched;
        below = i.below;
        fits = i.fits;
        listens = i.listens;
        old = i.old;
        apart = i.apart;
      } in
      let (t, e, scanned) =
        scan-Scanned (suc dtsize) ready 3 u (omega arith) (omega arith) j
          (λ d le r. sym (i.watched d) ∙ law.select_asked v.rfd ready v.dsize v.world asked d r) in
      let (es, log, k, reads) = scanned in (t, es, rw asked (rw e refl), log, k, reads)
