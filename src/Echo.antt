-- ===== src/Echo.antt =====
-- 07-sockets/multi-client-echo-server.c: one process that serves its clients by select(2). The calls
-- of the sockets are the parameter `Net`. An fd_set is a function into Bool, and `conn` says which
-- connection a descriptor of the process stands for: 0 for the listening socket, then 1, 2, ... in
-- the order of accept. The names of hosts and the texts are left out; `log` is what happened on the
-- connections.
pub mod Invariant
pub mod Round
pub mod Serve
pub mod Bytes
pub mod Listen
mod Tests
use nnos.Prelude.{
  ℕ, zero, suc, ◌≡◌, Bool, true, false, Option, none, some, List, [], ◌∷◌, ◌++◌, if◌then◌else◌, ltb,
  leb, ◌==◌, Run, done, exited, blocked,
}
use nnos.Prelude.Int.{ℤ, pos, negsuc, eqb_ℤ}

abbrev pub FdSet : Type 0
FdSet = ℕ → Bool

-- The calls of the server, with what each replies: `none` where a call fails.
pub record Net : Type 1 where
  pub World : Type 0
  pub select : FdSet → (dsize : ℕ) → World → Option FdSet × World
  pub accept : (opened : FdSet) → World → Option ℕ × World
  pub recv : ℕ → World → Option (List ℕ) × World
  pub send : ℕ → List ℕ → World → Option ℕ × World  -- how many bytes it took

-- f, with `a` in the place `d`
abbrev pub write : {A : Type 0} → (ℕ → A) → ℕ → A → ℕ → A
write f d a i = if i == d then a else f i

abbrev pub take : {A : Type 0} → ℕ → List A → List A
take zero xs = []
take (suc n) [] = []
take (suc n) (x ∷ xs) = x ∷ take n xs

pub data Event : Type 0 where
  accepted : (sd id : ℕ) → Event
  refused : (sd id : ℕ) → Event
  received : (sd : ℕ) (of : Option ℕ) → List ℕ → Event
  sent : (sd : ℕ) (of : Option ℕ) → List ℕ → Event
  closed : (sd : ℕ) (of : Option ℕ) → Event

abbrev pub fd_setsize : ℕ
fd_setsize = 1024

abbrev pub exit_failure : ℕ
exit_failure = 1

abbrev pub is_some : {A : Type 0} → Option A → Bool
is_some none = false
is_some (some a) = true

module _ (net : Net) where
  pub record Server : Type 0 where
    pub rfd : FdSet
    pub dsize : ℕ
    pub conn : ℕ → Option ℕ
    pub next : ℕ  -- the connection that the next accept opens
    pub log : List Event
    pub world : net.World

  abbrev pub opened : Server → FdSet
  opened v i = is_some (v.conn i)

  -- the listening socket, before the loop
  unfoldable pub listening : ℕ → net.World → Server
  listening s w = record {
    rfd = write (λ i. false) s true;
    dsize = suc s;
    conn = write (λ i. none) s (some 0);
    next = 1;
    log = [];
    world = w;
  }

  abbrev pub note : List Event → Server → Server
  note es v = record v { log = v.log ++ es }

  -- FD_SET(cs, &rfd), or close(cs) where it does not fit
  abbrev pub add : (dtsize : ℕ) → Option ℕ × net.World → Server → Server
  add dtsize (none, w) v = record v { world = w }
  add dtsize (some cs, w) v =
      if leb dtsize cs
      then record v { next = suc v.next; log = v.log ++ refused cs v.next ∷ []; world = w }
      else record v {
        rfd = write v.rfd cs true;
        dsize = if leb v.dsize cs then suc cs else v.dsize;
        conn = write v.conn cs (some v.next);
        next = suc v.next;
        log = v.log ++ accepted cs v.next ∷ [];
        world = w;
      }

  -- close(d); FD_CLR(d, &rfd);
  abbrev pub drop : ℕ → net.World → Server → Server
  drop d w v = record v {
    rfd = write v.rfd d false;
    conn = write v.conn d none;
    log = v.log ++ closed d (v.conn d) ∷ [];
    world = w;
  }

  abbrev pub after_send : ℕ → List ℕ → Option ℕ × net.World → Server → Server
  after_send d bytes (none, w) v = record v {
    log = v.log ++ received d (v.conn d) bytes ∷ [];
    world = w;
  }
  after_send d bytes (some n, w) v = record v {
    log = v.log ++ received d (v.conn d) bytes ∷ sent d (v.conn d) (take n bytes) ∷ [];
    world = w;
  }

  abbrev pub after_recv : ℕ → Option (List ℕ) × net.World → Server → Server
  after_recv d (none, w) v = drop d w v
  after_recv d (some [], w) v = drop d w v
  after_recv d (some (x ∷ xs), w) v = after_send d (x ∷ xs) (net.send d (x ∷ xs) w) v

  module _ (s dtsize : ℕ) where
    -- the body of the loop over the descriptors
    unfoldable pub visit : (ready : FdSet) → ℕ → Server → Server
    visit ready d v =
        if ready d
        then (if d == s
            then add dtsize (net.accept (opened v) v.world) v
            else after_recv d (net.recv d v.world) v)
        else v

    -- for (; d < dsize; ++d)
    unfoldable pub scan : (fuel : ℕ) → (ready : FdSet) → ℕ → Server → Option Server
    scan zero ready d v = none
    scan (suc fuel) ready d v =
        let rest = scan fuel ready (suc d) (visit ready d v) in
        if ltb d v.dsize then rest else some v

    abbrev scanned : Option Server → Run Server (Unit {0})
    scanned none = blocked
    scanned (some v) = done tt v

    abbrev after_select : Option FdSet × net.World → Server → Run Server (Unit {0})
    after_select (none, w) v = exited exit_failure (record v { world = w })
    after_select (some ready, w) v = scanned (scan (suc dtsize) ready 3 (record v { world = w }))

    -- One round of the endless loop. `blocked` stands for a loop over the descriptors that has no fuel
    -- left.
    unfoldable pub round : Server → Run Server (Unit {0})
    round v = after_select (net.select v.rfd v.dsize v.world) v

    abbrev then_serve :
        Run Server (Unit {0}) → (Server → Run Server (Unit {0})) → Run Server (Unit {0})
    then_serve (done _ v) k = k v
    then_serve (exited c v) k = exited c v
    then_serve blocked k = blocked

    -- the first rounds
    unfoldable pub serve : (rounds : ℕ) → Server → Run Server (Unit {0})
    serve zero v = done tt v
    serve (suc n) v = then_serve (round v) (serve n)
