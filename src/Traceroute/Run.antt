-- ===== src/Traceroute/Run.antt =====
-- do_traceroute as a whole: it ends, with one of two statuses, and frees no host name twice.
use nnos.Prelude.{
  ℕ, zero, suc, ◌≤◌, ◌<◌, ◌≡◌, ◌⊎◌, inl, inr, refl, Bool, true, List, [], ◌∷◌, ◌&&◌, some,
  if◌then◌else◌, arith, Bool-cases, sym, Run, done, exited, blocked, length,
}
use nnos.Prelude.Int.{ℤ, pos, negsuc}
use mathlib.Core.Path.{subst}
use nnos.Traceroute.Probe.{Name, err_send, ProbeInfo, Tr, Turn}
use nnos.Traceroute.Hop.{Settings, Sending, do_one_probe, probe_loop, initial, print_exits, stops}
use nnos.Traceroute.Options.{Double, Options}
use nnos.Traceroute.Ranges.{InRange}
use nnos.Traceroute.Outcome.{some_decides, Settled, do_one_probe-Settled}
use nnos.Traceroute.Memory.{
  free_names, free_until, AddrInfo, traceroute_init, settings_of, rounds, do_traceroute,
  after_probes,
}
use nnos.Traceroute.Release.{times, Unheld, free_probes_once}
use nnos.Traceroute.Sharing.{IsShared}
use nnos.Traceroute.Loop.{probe_loop-IsShared}

-- each probe has a turn that ends its wait
abbrev pub each_decides : List (Sending × List Turn) → Bool
each_decides [] = true
each_decides ((s, ts) ∷ inputs) = some_decides ts && each_decides inputs

-- a result that is not for ever in a wait, and a failure that a probe's sending explains
abbrev pub Ends : {A : Type 0} → Run Tr A → Type 0
Ends (done a t) = Unit
Ends (exited code t) = (code ≡ 1) × ((j : ℕ) × ((t.probes j).probe_result ≡ err_send))
Ends blocked = ⊥

initial-IsShared : (o : Settings) → IsShared o initial
initial-IsShared o = record { old = λ i a h. absurd (cc); grouped = λ i j a h k. absurd (cc) }

module _ (o : Settings) where
  abbrev after_round : ℕ → Tr → Run Tr (Unit {0}) → Run Tr (Unit {0})
  after_round pn t rest =
      if print_exits (t.probes pn).probe_result
      then exited 1 t
      else (if stops o pn t then done tt t else rest)

  probe_round :
      (count pn : ℕ) (s : Sending) (ts : List Turn) (inputs : List (Sending × List Turn))
      (tr t : Tr)
      → do_one_probe o pn s ts tr ≡ some t
      → probe_loop o (suc count) pn ((s, ts) ∷ inputs) tr
        ≡ after_round pn t (probe_loop o count (suc pn) inputs t)
  unfolding probe_loop
  probe_round count pn s ts inputs tr t e = ground (arith, e)

  Settled-exit :
      (p : ProbeInfo) → Settled p → print_exits p.probe_result ≡ true → p.probe_result ≡ err_send
  unfolding print_exits
  Settled-exit p s h = ground arith

  after_round-Ends :
      (pn : ℕ) (t : Tr) (rest : Run Tr (Unit {0}))
      → Settled (t.probes pn)
      → Ends rest
      → Ends (after_round pn t rest)
  after_round-Ends pn t rest settled later =
      elim (Bool-cases (print_exits (t.probes pn).probe_result)) [
        | inl x ↦ rw x (refl, (pn, Settled-exit (t.probes pn) settled x))
        | inr x ↦ elim (Bool-cases (stops o pn t)) [
          | inl y ↦ rw (x, y) tt
          | inr y ↦ rw (x, y) later
        ]
      ]

  probe_loop-Ends :
      (count pn : ℕ) (inputs : List (Sending × List Turn)) (tr : Tr)
      → each_decides inputs ≡ true
      → count ≤ length inputs
      → Ends (probe_loop o count pn inputs tr)
  unfolding probe_loop
  probe_loop-Ends zero pn inputs tr all enough = tt
  probe_loop-Ends (suc count) pn [] tr all enough = absurd (omega arith)
  probe_loop-Ends (suc count) pn ((s, ts) ∷ inputs) tr all enough =
      let (t, e, settled, _) = do_one_probe-Settled o pn s ts tr (ground arith) in
      subst Ends (sym (probe_round count pn s ts inputs tr t e)) (
        after_round-Ends pn t (probe_loop o count (suc pn) inputs t) settled
          (probe_loop-Ends count (suc pn) inputs t (ground arith) (omega arith)))

  free_names_once :
      (tr : Tr) (a : ℕ)
      → 0 < o.per_ttl
      → IsShared o tr
      → (times a (free_names o tr).0 ≡ 0)
        ⊎ ((times a (free_names o tr).0 ≡ 1) × Unheld a (free_names o tr).1)
  unfolding free_names
  free_names_once tr a p v = go tr.final_probe
    where
      go :
          (f : ℤ)
          → (times a (free_until o f tr).0 ≡ 0)
            ⊎ ((times a (free_until o f tr).0 ≡ 1) × Unheld a (free_until o f tr).1)
      go (pos final) = free_probes_once o p (suc final) 0 a tr v.grouped
      go (negsuc n) = inl refl

-- What a return from do_traceroute means for the host names.
abbrev pub Frees : Run Tr (ℕ × List Name) → Type 0
Frees (done (code, freed) t) =
    (code ≤ 1) × ((a : ℕ) → (times a freed ≡ 0) ⊎ ((times a freed ≡ 1) × Unheld a t))
Frees (exited code t) = Unit
Frees blocked = Unit

after_probes-Ends : (o : Settings) (r : Run Tr (Unit {0})) → Ends r → Ends (after_probes o r)
after_probes-Ends o (done _ t) e = tt
after_probes-Ends o (exited code t) e = e
after_probes-Ends o blocked e = e

after_probes-Frees :
    (o : Settings) (r : Run Tr (Unit {0}))
    → 0 < o.per_ttl
    → ((t : Tr) → r ≡ done tt t → IsShared o t)
    → Frees (after_probes o r)
after_probes-Frees o (done _ t) p shared =
    (omega arith, λ a. free_names_once o t a p (shared t refl))
after_probes-Frees o (exited code t) p shared = tt
after_probes-Frees o blocked p shared = tt

module _ (d : Double) (o : Options d) where
  -- do_traceroute ends, if for each of its max_ttl * probes rounds some turn of poll and recvmsg ends
  -- the wait; and where it ends the process, the status is 1 and some probe could not be sent.
  pub do_traceroute-Ends :
      (gai : ℤ) (addresses : List AddrInfo) (array : Bool) (inputs : List (Sending × List Turn))
      → each_decides inputs ≡ true
      → rounds d o ≤ length inputs
      → Ends (do_traceroute d o gai addresses array inputs)
  unfolding do_traceroute
  do_traceroute-Ends gai addresses array inputs all enough =
      elim (Bool-cases (traceroute_init gai addresses array)) [
        | inl ready ↦ rw ready (
            after_probes-Ends (settings_of d o) _
              (probe_loop-Ends (settings_of d o) (rounds d o) 0 inputs initial all enough))
        | inr failed ↦ rw failed tt
      ]

  -- With options in range, do_traceroute returns 0 or 1, and of the host names that malloc gave it
  -- frees none twice, and none to which a probe still points.
  pub do_traceroute-Frees :
      (gai : ℤ) (addresses : List AddrInfo) (array : Bool) (inputs : List (Sending × List Turn))
      → InRange d o
      → Frees (do_traceroute d o gai addresses array inputs)
  unfolding do_traceroute
  do_traceroute-Frees gai addresses array inputs v =
      elim (Bool-cases (traceroute_init gai addresses array)) [
        | inl ready ↦
            let s = settings_of d o in
            let p : 0 < s.per_ttl = omega (arith, v.probes_low) in
            rw ready (
              after_probes-Frees s _ p (λ t e.
                probe_loop-IsShared s p (rounds d o) 0 inputs initial t (initial-IsShared s) e))
        | inr failed ↦ rw failed (omega arith, λ a. inl refl)
      ]
