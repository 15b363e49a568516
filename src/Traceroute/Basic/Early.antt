-- ===== src/Traceroute/Basic/Early.antt =====
-- What basic_traceroute does where -f gives a first TTL below 1.
use nnos.Prelude.{ℕ, zero, suc, ◌+◌, ◌-◌, ◌*◌, ◌≤◌, ◌≡◌, refl, none, false, arith, List, sym}
use mathlib.Core.Path.{subst}
use nnos.Prelude.Int.{ℤ, pos, negsuc, ◌+ℤ◌, ◌-ℤ◌, ◌*ℤ◌, ◌≤ℤ◌, pos_part}
use nnos.Traceroute.Options.{Double}
use nnos.Traceroute.Basic.Options.{Options}
use nnos.Traceroute.Basic.Probe.{Tr, Settings, NameInfo, say, level}
use nnos.Traceroute.Basic.Run.{
  outside, Replies, in_array, index, probe_at, hop_loop, ttl_loop, initial, AddrInfo,
  traceroute_init, settings_of, hops, do_traceroute,
}

below_array : (k : ℕ) (ttl : ℤ) → ttl ≤ℤ pos 0 → in_array (index (pos (suc k)) ttl 0) ≡ none
unfolding index ◌*ℤ◌ ◌+ℤ◌ ◌-ℤ◌
below_array k (pos zero) low = ground arith
below_array k (pos (suc a)) low = absurd (omega arith)
below_array k (negsuc a) low = let some : 1 ≤ (a + 2) * suc k = grind arith in ground (arith, some)

below_start : (k : ℕ) (ttl : ℤ) → ttl ≤ℤ pos 0 → index (pos (suc k)) ttl 0 ≤ℤ negsuc 0
unfolding index ◌*ℤ◌ ◌+ℤ◌ ◌-ℤ◌
below_start k (pos zero) low = ground arith
below_start k (pos (suc a)) low = absurd (omega arith)
below_start k (negsuc a) low = let some : 1 ≤ (a + 2) * suc k = grind arith in ground (arith, some)

module _ (s : Settings) (n : NameInfo) (replies : Replies) where
  probe_outside :
      (i : ℤ) (tr : Tr) → in_array i ≡ none → probe_at s n replies i false tr ≡ outside i tr
  unfolding probe_at
  probe_outside i tr e = rw (probe_at, e) refl

  hop_outside :
      (p ttl : ℤ) (c : ℕ) (tr : Tr)
      → in_array (index p ttl 0) ≡ none
      → hop_loop s n replies p ttl (suc c) 0 false tr ≡ outside (index p ttl 0) tr
  unfolding hop_loop
  hop_outside p ttl c tr e = rw (hop_loop, probe_outside (index p ttl 0) tr e) refl

  run_outside :
      (k c : ℕ) (ttl : ℤ)
      → ttl ≤ℤ pos 0
      → ttl_loop s n replies (pos (suc k)) (suc c) ttl initial
        ≡ outside (index (pos (suc k)) ttl 0) (say (level ttl) initial)
  unfolding ttl_loop
  run_outside k c ttl low = rw (ttl_loop, hop_outside _ ttl k _ (below_array k ttl low)) refl

module _ (d : Double) where
  some_hops : (o : Options d) → o.first_ttl ≤ℤ o.max_ttl → (c : ℕ) × (hops d o ≡ suc c)
  unfolding ◌+ℤ◌ ◌-ℤ◌
  some_hops o le = (hops d o - 1, ground arith)

  -- If the first TTL is below 1 and not above the maximum, and traceroute_init succeeds, the first
  -- probe is written below the start of the array, for any positive number of probes.
  pub early_ttl-outside :
      (o : Options d) (n : NameInfo) (gai : ℤ) (addresses : List AddrInfo) (replies : Replies)
      → pos 1 ≤ℤ o.probes
      → o.first_ttl ≤ℤ pos 0
      → o.first_ttl ≤ℤ o.max_ttl
      → traceroute_init gai addresses ≡ 0
      → (do_traceroute d o n gai addresses replies
          ≡ outside (index o.probes o.first_ttl 0) (say (level o.first_ttl) initial))
        × (index o.probes o.first_ttl 0 ≤ℤ negsuc 0)
  unfolding do_traceroute
  early_ttl-outside o n gai addresses replies per low some ready =
      let k = pos_part o.probes - 1 in
      let e : o.probes ≡ pos (suc k) = ground (arith, per) in
      let (c, h) = some_hops o some in
      let s = settings_of d o in
      let (run, low) =
        subst
          (λ p.
            (ttl_loop s n replies p (hops d o) o.first_ttl initial
              ≡ outside (index p o.first_ttl 0) (say (level o.first_ttl) initial))
            × (index p o.first_ttl 0 ≤ℤ negsuc 0))
          (sym e)
          (rw h (run_outside s n replies k c o.first_ttl low), below_start k o.first_ttl low) in
      (rw (ready, run) refl, low)
