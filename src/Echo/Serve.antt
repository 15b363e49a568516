-- ===== src/Echo/Serve.antt =====
-- Any number of rounds.
use nnos.Prelude.{ℕ, zero, suc, ◌≡◌, ◌<◌, refl, Option-cases, inl, inr, Run, done, exited, blocked}
use nnos.Echo.{Net, Server, exit_failure, listening, round, serve, then_serve}
use nnos.Echo.Invariant.{NetLaw, IsServing, listening-IsServing}
use nnos.Echo.Round.{round-Answers}

module _ (net : Net) (law : NetLaw net) (s dtsize : ℕ) where
  -- the server is in its loop, or select has failed
  abbrev pub Serves : Run (Server net) (Unit {0}) → Type 0
  Serves (done _ v) = IsServing net s dtsize v
  Serves (exited c v) = c ≡ exit_failure
  Serves blocked = ⊥

  round-Serves : (v : Server net) → IsServing net s dtsize v → Serves (round net s dtsize v)
  round-Serves v i = elim (Option-cases (net.select v.rfd v.dsize v.world).0) [
    | inl failed ↦ unfold round in rw failed refl
    | inr (ready, e) ↦
        let (t, es, r, log, j, reads) = round-Answers net law s dtsize v ready i e in rw r j
  ]

  then_serve-Serves :
      (r : Run (Server net) (Unit {0})) (k : Server net → Run (Server net) (Unit {0}))
      → Serves r
      → ((v : Server net) → IsServing net s dtsize v → Serves (k v))
      → Serves (then_serve net s dtsize r k)
  then_serve-Serves (done _ v) k i next = next v i
  then_serve-Serves (exited c v) k i next = i
  then_serve-Serves blocked k i next = i

  serve-Serves_from :
      (n : ℕ) (v : Server net) → IsServing net s dtsize v → Serves (serve net s dtsize n v)
  unfolding serve
  serve-Serves_from zero v i = i
  serve-Serves_from (suc n) v i =
      then_serve-Serves (round net s dtsize v) (serve net s dtsize n) (round-Serves v i)
        (serve-Serves_from n)

  -- After any number of rounds the server is still in its loop, with the watched descriptors exactly
  -- those of its open sockets, each below dsize, which is at most dtsize, and each with a connection
  -- of its own; or select has failed and the process ends with EXIT_FAILURE. The descriptor of the
  -- listening socket must be below dtsize.
  pub serve-Serves :
      (n : ℕ) (w : net.World) → s < dtsize → Serves (serve net s dtsize n (listening net s w))
  serve-Serves n w h =
      serve-Serves_from n (listening net s w) (listening-IsServing net law s dtsize w h)
