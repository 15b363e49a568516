-- ===== src/Echo/Invariant.antt =====
-- What the server keeps from one descriptor to the next.
use nnos.Prelude.{
  ℕ, ◌≡◌, ◌⊎◌, ◌≢◌, ◌≤◌, ◌<◌, true, false, Option, none, some, List, [], ◌∷◌, leb, ◌==◌, refl,
  arith, Bool-cases, inl, inr,
}
use nnos.Echo.{FdSet, Net, Server, opened, listening, add, after_recv, after_send, drop, visit}

-- the documented replies that the theorems rely on
pub record NetLaw (net : Net) : Type 0 where
  -- select(2) reports descriptors of the set that it was given
  pub select_asked :
      (set ready : FdSet) (n : ℕ) (w : net.World)
      → (net.select set n w).0 ≡ some ready
      → (i : ℕ) → ready i ≡ true
      → set i ≡ true
  -- accept(2) returns a new descriptor
  pub accept_new :
      (set : FdSet) (cs : ℕ) (w : net.World) → (net.accept set w).0 ≡ some cs → set cs ≡ false

-- The three ways through the body of the loop.
pub visit-cases :
    (net : Net) (s dtsize : ℕ) (ready : FdSet) (d : ℕ) (v : Server net)
    → ((ready d ≡ false) × (visit net s dtsize ready d v ≡ v))
      ⊎ (((ready d ≡ true)
            × (d ≡ s)
            × (visit net s dtsize ready d v ≡ add net dtsize (net.accept (opened net v) v.world) v))
          ⊎ ((ready d ≡ true)
              × (d ≢ s)
              × (visit net s dtsize ready d v ≡ after_recv net d (net.recv d v.world) v)))
unfolding visit
visit-cases net s dtsize ready d v = elim (Bool-cases (ready d)) [
  | inl asked ↦ elim (Bool-cases (d == s)) [
    | inl here ↦ inr (inl (asked, ground (arith, here), rw (asked, here) refl))
    | inr there ↦ inr (inr (asked, ground (arith, there), rw (asked, there) refl))
  ]
  | inr silent ↦ inl (silent, rw silent refl)
]

module _ (net : Net) where
  -- The watched descriptors are those of the open sockets, each is below `dsize`, which fits an
  -- fd_set of `dtsize`, and each stands for a connection of its own.
  pub record IsServing (s dtsize : ℕ) (v : Server net) : Type 0 where
    pub watched : (i : ℕ) → v.rfd i ≡ opened net v i
    pub below : (i : ℕ) → v.rfd i ≡ true → i < v.dsize
    pub fits : v.dsize ≤ dtsize
    pub listens : v.conn s ≡ some 0
    pub old : (i c : ℕ) → v.conn i ≡ some c → c < v.next
    pub apart : (i j c : ℕ) → v.conn i ≡ some c → v.conn j ≡ some c → i ≡ j

  module _ (law : NetLaw net) (s dtsize : ℕ) where
    pub listening-IsServing : (w : net.World) → s < dtsize → IsServing s dtsize (listening net s w)
    unfolding listening
    listening-IsServing w h = record {
      watched = λ i. ground arith;
      below = λ i e. ground arith;
      fits = omega arith;
      listens = ground arith;
      old = λ i c e. ground arith;
      apart = λ i j c e f. ground arith;
    }

    add-IsServing :
        (v : Server net) (w : net.World) (r : Option ℕ)
        → ((cs : ℕ) → r ≡ some cs → opened net v cs ≡ false)
        → IsServing s dtsize v
        → IsServing s dtsize (add net dtsize (r, w) v)
    add-IsServing v w none new i = record {
      watched = i.watched;
      below = i.below;
      fits = i.fits;
      listens = i.listens;
      old = i.old;
      apart = i.apart;
    }
    add-IsServing v w (some cs) new i = elim (Bool-cases (leb dtsize cs)) [
      | inl full ↦ rw full (record {
        watched = i.watched;
        below = i.below;
        fits = i.fits;
        listens = i.listens;
        old = λ k c e. omega (arith, i.old k c e);
        apart = i.apart;
      })
      | inr room ↦ rw room (record {
        watched = λ k. ground (arith, i.watched k);
        below = λ k e. ground (arith, i.below k);
        fits = ground (arith, i.fits);
        listens = ground (arith, i.listens, new cs refl);
        old = λ k c e. ground (arith, i.old k c);
        apart = λ j k c e f. ground (arith, i.apart j k c, i.old j c, i.old k c);
      })
    ]

    drop-IsServing :
        (v : Server net) (w : net.World) (d : ℕ)
        → d ≢ s
        → IsServing s dtsize v
        → IsServing s dtsize (drop net d w v)
    drop-IsServing v w d ne i = record {
      watched = λ k. ground (arith, i.watched k);
      below = λ k e. ground (arith, i.below k);
      fits = i.fits;
      listens = ground (arith, i.listens);
      old = λ k c e. ground (arith, i.old k c);
      apart = λ j k c e f. ground (arith, i.apart j k c);
    }

    after_recv-IsServing :
        (v : Server net) (d : ℕ) (r : Option (List ℕ) × net.World)
        → d ≢ s
        → IsServing s dtsize v
        → IsServing s dtsize (after_recv net d r v)
    after_recv-IsServing v d (none, w) ne i = drop-IsServing v w d ne i
    after_recv-IsServing v d (some [], w) ne i = drop-IsServing v w d ne i
    after_recv-IsServing v d (some (x ∷ xs), w) ne i = same (net.send d (x ∷ xs) w)
      where
        same : (q : Option ℕ × net.World) → IsServing s dtsize (after_send net d (x ∷ xs) q v)
        same (none, u) = record {
          watched = i.watched;
          below = i.below;
          fits = i.fits;
          listens = i.listens;
          old = i.old;
          apart = i.apart;
        }
        same (some n, u) = record {
          watched = i.watched;
          below = i.below;
          fits = i.fits;
          listens = i.listens;
          old = i.old;
          apart = i.apart;
        }

    pub visit-IsServing :
        (ready : FdSet) (d : ℕ) (v : Server net)
        → IsServing s dtsize v
        → IsServing s dtsize (visit net s dtsize ready d v)
    visit-IsServing ready d v i = elim (visit-cases net s dtsize ready d v) [
      | inl (silent, e) ↦ rw e i
      | inr (inl (asked, here, e)) ↦
          let q = net.accept (opened net v) v.world in
          rw e (add-IsServing v q.1 q.0 (λ cs new. law.accept_new (opened net v) cs v.world new) i)
      | inr (inr (asked, there, e)) ↦ rw e (after_recv-IsServing v d (net.recv d v.world) there i)
    ]
