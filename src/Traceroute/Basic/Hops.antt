-- ===== src/Traceroute/Basic/Hops.antt =====
-- do_traceroute of basic_traceroute as a whole: where it stops, and that it stays in its array.
use nnos.Prelude.{
  ℕ, zero, suc, ◌+◌, ◌*◌, ◌≤◌, ◌<◌, ◌≡◌, ◌≢◌, ◌⊎◌, inl, inr, refl, true, false, arith, List,
  Bool-cases, ◌==◌, sym, ◌-◌, done,
}
use nnos.Prelude.Int.{ℤ, pos, negsuc, ◌+ℤ◌, ◌-ℤ◌, ltb_ℤ, ◌≤ℤ◌, pos_part}
use mathlib.Core.Path.{subst}
use nnos.Traceroute.Options.{Double}
use nnos.Traceroute.Outcome.{some_decides}
use nnos.Traceroute.Basic.Options.{Options, default_options, Switch, read_arguments}
use nnos.Traceroute.Basic.Bounds.{Bounded, read_arguments-Bounded}
use nnos.Traceroute.Basic.Probe.{Tr, Settings, NameInfo, say, newline, level}
use nnos.Traceroute.Basic.Run.{
  Trace, goes, returns, outside, waits, Replies, hop_loop, ttl_loop, initial, AddrInfo,
  traceroute_init, settings_of, hops, do_traceroute,
}
use nnos.Traceroute.Basic.Frame.{send_code}
use nnos.Traceroute.Basic.Outcome.{Progress, HopEnd, hop_loop-HopEnd}

-- No final probe is set after the last hop, `top`; or one of hop `last` is, where k is the number of
-- probes for a hop.
abbrev pub Stopped : (k top last : ℕ) → Tr → Type 0
Stopped k top last t =
    ((t.final_probe ≡ negsuc 0) × (last ≡ top))
    ⊎ ((f : ℕ) × (t.final_probe ≡ pos f) × (last * k ≤ f + k) × (f < last * k))

-- How the loops end: with 0, when the hops from `low` + 1 to `last` have been probed, or with 3, when
-- a probe could not be sent.
abbrev pub Traced : Settings → Replies → (k low top : ℕ) → Trace (Unit {0}) → Type 0
Traced o replies k low top (returns c t) =
    ((c ≡ 0) × ((last : ℕ) × (last ≤ top) × Progress (low * k) (last * k) t × Stopped k top last t))
    ⊎ ((c ≡ 3)
        × ((pn : ℕ) × (low * k ≤ pn)
            × (send_code o replies pn ≢ 0)
            × Progress (low * k) (suc pn) t))
Traced o replies k low top (goes a t) = ⊥
Traced o replies k low top (outside i t) = ⊥
Traced o replies k low top waits = ⊥

say-Progress : (low next : ℕ) (tr : Tr) → Progress low next tr → Progress low next (say newline tr)
say-Progress low next tr v = record { shut = v.shut; below = v.below; above = v.above }

next_ttl : (h : ℕ) → pos (suc h) +ℤ pos 1 ≡ pos (suc (suc h))
unfolding ◌+ℤ◌
next_ttl h = ground arith

is_set : (f : ℕ) → ltb_ℤ (pos f) (pos 0) ≡ false
is_set f = ground arith

module _ (o : Settings) (n : NameInfo) (replies : Replies)
    (decides : (pn : ℕ) → some_decides (replies pn).1 ≡ true) where
  ttl_loop-Traced :
      (k low top count h : ℕ) (tr : Tr)
      → k ≤ 10
      → (0 < count → top ≤ 255)
      → h + count ≡ top
      → low * k ≤ h * k
      → Progress (low * k) (h * k) tr
      → tr.final_probe ≡ negsuc 0
      → Traced o replies k low top (ttl_loop o n replies (pos k) count (pos (suc h)) tr)
  unfolding ttl_loop
  ttl_loop-Traced k low top zero h tr few small all le v unset =
      inl (refl, (h, omega arith, v, inl (unset, omega arith)))
  ttl_loop-Traced k low top (suc count) h tr few small all le v unset =
      go (hop_loop o n replies (pos k) (pos (suc h)) k 0 false (say (level (pos (suc h))) tr))
        (hop_loop-HopEnd o n replies decides (low * k) k h k 0 false (say (level (pos (suc h))) tr)
          few (omega (arith, small (omega arith))) (omega arith) le (ground (arith, v)) (inl unset))
        (λ t w e.
          ttl_loop-Traced k low top count (suc h) t few (λ _. small (omega arith)) (omega arith)
            (omega (arith, le)) w e)
    where
      go :
          (r : Trace (Unit {0}))
          → HopEnd o replies (low * k) k h r
          → ((t : Tr)
              → Progress (low * k) (suc h * k) t
              → t.final_probe ≡ negsuc 0
              → Traced o replies k low top
                  (ttl_loop o n replies (pos k) count (pos (suc (suc h))) t))
          → Traced o replies k low top (elim r [
            | goes _ t ↦ elim (ltb_ℤ t.final_probe (pos 0)) [
              | true ↦ ttl_loop o n replies (pos k) count (pos (suc h) +ℤ pos 1) (say newline t)
              | false ↦ returns 0 (say newline t)
            ]
            | returns c t ↦ returns c t
            | outside i t ↦ outside i t
            | waits ↦ waits
          ])
      go (goes _ t) (w, inl unset) again =
          rw (unset, next_ttl h)
            (again (say newline t) (ground (arith, say-Progress _ _ t w)) unset)
      go (goes _ t) (w, inr (f, e, a, b)) again =
          rw (e, is_set f)
            (inl (
              refl,
              (
                suc h,
                omega arith,
                ground (arith, say-Progress _ _ t w),
                inr (f, e, ground arith, ground arith),
              ),
            ))
      go (returns c t) failed again = inr failed
      go (outside i t) bad again = bad
      go waits bad again = bad

module _ (d : Double) where
  hops_lem :
      (o : Options d) (h : ℕ)
      → Bounded d o
      → o.first_ttl ≡ pos (suc h)
      → 0 < hops d o
      → h + hops d o ≤ 255
  unfolding ◌+ℤ◌ ◌-ℤ◌
  hops_lem o h v e some = ground (arith, v.ttl_bound)

  Traced-all :
      (o : Options d) (n : NameInfo) (replies : Replies) (h k : ℕ)
      → Bounded d o
      → o.first_ttl ≡ pos (suc h)
      → o.probes ≡ pos k
      → ((pn : ℕ) → some_decides (replies pn).1 ≡ true)
      → Traced
          (settings_of d o)
          replies
          k
          h
          (h + hops d o)
          (ttl_loop (settings_of d o) n replies o.probes (hops d o) o.first_ttl initial)
  Traced-all o n replies h k v first per decides =
      let s = settings_of d o in
      let run = λ (p f : ℤ).
        Traced s replies k h (h + hops d o) (ttl_loop s n replies p (hops d o) f initial) in
      let untouched : Progress (h * k) (h * k) initial = record {
        shut = λ j a b. absurd (omega arith);
        below = λ j a. refl;
        above = λ j a. refl;
      } in
      subst (run o.probes) (sym first) (
        subst (λ p. run p (pos (suc h))) (sym per)
          (ttl_loop-Traced s n replies decides k h (h + hops d o) (hops d o) h initial
            (ground (arith, v.probes_high, per)) (hops_lem o h v first) refl (omega arith) untouched
            refl))

  abbrev pub low_of : Options d → ℕ
  low_of o = pos_part o.first_ttl - 1

  -- Whatever the command line holds, if the first TTL is at least 1 and some turn of poll and recvmsg
  -- ends the wait of each probe, do_traceroute returns and never leaves the array of the probes. It
  -- returns 1 if traceroute_init fails; or 0, when all probes of the hops up to a last one have been
  -- made and their sockets closed, no other probe has been touched, and the last hop is the one of
  -- the final probe, or that of the maximum if there is no final probe; or 3, when the last probe
  -- made, whose socket is closed too, could not be sent.
  pub do_traceroute-Traced :
      (xs : List (Switch d)) (rest : List ℤ) (o : Options d) (n : NameInfo) (gai : ℤ)
      (addresses : List AddrInfo) (replies : Replies)
      → read_arguments d xs rest (default_options d) ≡ done tt o
      → pos 1 ≤ℤ o.first_ttl
      → ((pn : ℕ) → some_decides (replies pn).1 ≡ true)
      → ((traceroute_init gai addresses ≢ 0)
          × (do_traceroute d o n gai addresses replies ≡ returns 1 initial))
        ⊎ Traced
            (settings_of d o)
            replies
            (pos_part o.probes)
            (low_of o)
            (low_of o + hops d o)
            (do_traceroute d o n gai addresses replies)
  unfolding do_traceroute
  do_traceroute-Traced xs rest o n gai addresses replies read first decides =
      let v = read_arguments-Bounded d xs rest o read in
      elim (Bool-cases (traceroute_init gai addresses == 0)) [
        | inl ready ↦ inr (
            rw ready (
              Traced-all o n replies (low_of o) (pos_part o.probes) v (ground (arith, first))
                (ground (arith, v.probes_low)) decides))
        | inr failed ↦ inl ((λ e. absurd (ground (arith, failed, e))), rw failed refl)
      ]
