-- ===== src/Echo/Listen.antt =====
-- main up to the loop: the address to listen on, and what becomes of the sockets that were tried.
use nnos.Prelude.{
  ℕ, ◌≡◌, ◌<◌, ◌≤◌, Bool, false, Option, none, some, List, [], ◌∷◌, ◌++◌, if◌then◌else◌, ltb, refl,
  arith, Option-cases, Bool-cases, inl, inr, Run,
}
use nnos.Prelude.Int.{ℤ, pos, eqb_ℤ}
use nnos.Echo.{Net, Server, listening, serve, fd_setsize, exit_failure}
use nnos.Echo.Invariant.{NetLaw}
use nnos.Echo.Serve.{Serves, serve-Serves}

-- what socket, setsockopt and bind return for one address of servinfo
pub record Attempt : Type 0 where
  pub socket : Option ℕ
  pub setsockopt : ℤ
  pub bind : ℤ

abbrev also_closed : ℕ → Option ℕ × List ℕ → Option ℕ × List ℕ
also_closed s (found, shut) = (found, s ∷ shut)

-- The loop over the addresses: the socket that it breaks with, and those that it closes.
unfoldable pub try_addresses : List Attempt → Option ℕ × List ℕ
try_addresses [] = (none, [])
try_addresses (a ∷ more) =
    let rest = try_addresses more in
    elim a.socket [
      | none ↦ rest
      | some s ↦
          if eqb_ℤ a.setsockopt (pos 0)
          then (if eqb_ℤ a.bind (pos 0) then (some s, []) else also_closed s rest)
          else also_closed s rest
    ]

-- what the other calls of main return
pub record Start : Type 0 where
  pub getaddrinfo : ℤ
  pub addresses : List Attempt
  pub listen : ℤ
  pub getdtablesize : ℕ

-- if (dtsize > FD_SETSIZE) dtsize = FD_SETSIZE;
abbrev pub clamp_dtsize : ℕ → ℕ
clamp_dtsize n = if ltb fd_setsize n then fd_setsize else n

pub data Main (net : Net) : Type 0 where
  returned : (status : ℕ) → Main net
  looping : (s dtsize : ℕ) → Run (Server net) (Unit {0}) → Main net

module _ (net : Net) where
  abbrev after_addresses : (rounds : ℕ) → Start → net.World → Option ℕ → Main net
  after_addresses rounds m w none = returned exit_failure
  after_addresses rounds m w (some s) =
      if eqb_ℤ m.listen (pos 0)
      then looping s (clamp_dtsize m.getdtablesize)
          (serve net s (clamp_dtsize m.getdtablesize) rounds (listening net s w))
      else returned exit_failure

  -- main, with the first rounds of its loop
  unfoldable pub main : (rounds : ℕ) → Start → net.World → Main net
  main rounds m w =
      if eqb_ℤ m.getaddrinfo (pos 0)
      then after_addresses rounds m w (try_addresses m.addresses).0
      else returned exit_failure

abbrev pub bound_socket : Option ℕ → List ℕ
bound_socket none = []
bound_socket (some s) = s ∷ []

abbrev works : Attempt → Bool
works a = if eqb_ℤ a.setsockopt (pos 0) then eqb_ℤ a.bind (pos 0) else false

-- the sockets that are created until one can be bound
abbrev pub sockets_until_bound : List Attempt → List ℕ
sockets_until_bound [] = []
sockets_until_bound (a ∷ more) =
    let rest = sockets_until_bound more in
    elim a.socket [ none ↦ rest | some s ↦ if works a then s ∷ [] else s ∷ rest ]

-- Of the sockets that the loop over the addresses creates, every one is closed but the one that the
-- server listens on, which is the last one; where no address can be bound, all are closed.
pub try_addresses-closed :
    (tries : List Attempt)
    → sockets_until_bound tries ≡ (try_addresses tries).1 ++ bound_socket (try_addresses tries).0
unfolding try_addresses
try_addresses-closed [] = refl
try_addresses-closed (a ∷ more) = elim (Option-cases a.socket) [
  | inl no_socket ↦ rw no_socket (try_addresses-closed more)
  | inr (s, e) ↦ rw e (ground (arith, try_addresses-closed more))
]

module _ (net : Net) (law : NetLaw net) where
  abbrev pub MainServes : Main net → Type 0
  MainServes (returned c) = c ≡ exit_failure
  MainServes (looping s dtsize r) = (dtsize ≤ fd_setsize) × Serves net law s dtsize r

  -- After any number of rounds, main has returned EXIT_FAILURE, or select has failed and it ends
  -- with EXIT_FAILURE, or it is in its loop with the watched descriptors exactly those of its open
  -- sockets, each below FD_SETSIZE and each with a connection of its own; if the descriptor of the
  -- socket it listens on is below FD_SETSIZE and below the size of the descriptor table.
  pub main-Serves :
      (rounds : ℕ) (m : Start) (w : net.World)
      → ((s : ℕ) → (try_addresses m.addresses).0 ≡ some s → s < clamp_dtsize m.getdtablesize)
      → MainServes (main net rounds m w)
  unfolding main
  main-Serves rounds m w small = elim (Bool-cases (eqb_ℤ m.getaddrinfo (pos 0))) [
    | inl found ↦ rw found (elim (Option-cases (try_addresses m.addresses).0) [
      | inl unbound ↦ rw unbound refl
      | inr (s, e) ↦ rw e (elim (Bool-cases (eqb_ℤ m.listen (pos 0))) [
        | inl heard ↦ rw heard (
          ground arith,
          serve-Serves net law s (clamp_dtsize m.getdtablesize) rounds w (small s e),
        )
        | inr deaf ↦ rw deaf refl
      ])
    ])
    | inr lost ↦ rw lost refl
  ]
