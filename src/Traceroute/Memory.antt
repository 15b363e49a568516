-- ===== src/Traceroute/Memory.antt =====
-- 07-sockets/traceroute/successive_traceroute: traceroute_init, do_traceroute and the release of the
-- host names. A host name is a pointer, so `free` is a list of the pointers that it is given. The
-- packets' data, which each probe has for itself, the target's own name and the array are left out;
-- the printed texts too.
use nnos.Prelude.{
  ℕ, zero, suc, ◌*◌, ◌/◌, Bool, true, false, not, ◌&&◌, ◌||◌, List, [], ◌∷◌, ◌++◌, if◌then◌else◌,
  ◌==◌, Run, done, exited, blocked,
}
use nnos.Prelude.Int.{ℤ, pos, negsuc, pos_part, ◌*ℤ◌, eqb_ℤ}
use nnos.Traceroute.Options.{Double, Options}
use nnos.Traceroute.Probe.{Name, null, host_unknown, host_unknown_bad_af, heap, Tr, put, Turn}
use nnos.Traceroute.Hop.{Settings, Sending, is_null, probe_loop, initial}

-- `==` on two pointers
abbrev pub same_name : Name → Name → Bool
same_name null null = true
same_name host_unknown host_unknown = true
same_name host_unknown_bad_af host_unknown_bad_af = true
same_name (heap a) (heap b) = a == b
same_name _ _ = false

abbrev pub name_of : Tr → ℕ → Name
name_of tr pn = (tr.probes pn).recv_hostname

abbrev pub without_name : Tr → ℕ → Tr
without_name tr pn = put tr pn (record (tr.probes pn) { recv_hostname = null })

-- "check other probes on the same TTL level for the same pointer": `count` probes from `i` on
unfoldable pub used_elsewhere : (count i pn : ℕ) → Tr → Bool
used_elsewhere zero i pn tr = false
used_elsewhere (suc count) i pn tr =
    (not (i == pn) && same_name (name_of tr i) (name_of tr pn))
    || used_elsewhere count (suc i) pn tr

-- the value is the list of the names that are freed
unfoldable pub traceroute_free_mem_probe : Settings → ℕ → Tr → List Name × Tr
traceroute_free_mem_probe o pn tr =
    if is_null (name_of tr pn) || same_name (name_of tr pn) host_unknown
    then ([], tr)
    else (if used_elsewhere o.per_ttl (pn / o.per_ttl * o.per_ttl) pn tr
        then ([], without_name tr pn)
        else (name_of tr pn ∷ [], without_name tr pn))

-- traceroute_free_mem_probe for `count` probes from `pn` on
unfoldable pub free_probes : Settings → (count pn : ℕ) → Tr → List Name × Tr
free_probes o zero pn tr = ([], tr)
free_probes o (suc count) pn tr =
    let (now, t) = traceroute_free_mem_probe o pn tr in
    let (later, u) = free_probes o count (suc pn) t in (now ++ later, u)

-- for (pn = 0; pn <= tr.final_probe; pn++)
abbrev pub free_until : Settings → ℤ → Tr → List Name × Tr
free_until o (pos final) tr = free_probes o (suc final) 0 tr
free_until o (negsuc _) tr = ([], tr)

unfoldable pub free_names : Settings → Tr → List Name × Tr
free_names o tr = free_until o tr.final_probe tr

-- an address from getaddrinfo: whether it is an IPv4 address, and whether it fits dest_addr
pub record AddrInfo : Type 0 where
  pub is_inet : Bool
  pub fits : Bool

unfoldable pub copy_addresses : List AddrInfo → Bool
copy_addresses [] = true
copy_addresses (a ∷ more) =
    let rest = copy_addresses more in if a.is_inet && not a.fits then false else rest

-- traceroute_init: whether it returns 0, for the result of getaddrinfo, its addresses and whether
-- calloc gives the array
unfoldable pub traceroute_init : (gai : ℤ) → List AddrInfo → (array : Bool) → Bool
traceroute_init gai addresses array = eqb_ℤ gai (pos 0) && copy_addresses addresses && array

-- what follows the loop of do_traceroute
abbrev pub after_probes : Settings → Run Tr (Unit {0}) → Run Tr (ℕ × List Name)
after_probes o (done _ tr) = let (freed, t) = free_names o tr in done (0, freed) t
after_probes o (exited code tr) = exited code tr
after_probes o blocked = blocked

module _ (d : Double) where
  abbrev pub settings_of : Options d → Settings
  settings_of o = record {
    per_ttl = pos_part o.probes;
    port_seq = o.dest_port_seq;
    port = o.dest_port;
    packet_len = o.packet_len;
  }

  -- the number of rounds of `for (pn = 0; pn < opts.max_ttl * opts.probes; pn++)`
  abbrev pub rounds : Options d → ℕ
  rounds o = pos_part (o.max_ttl *ℤ o.probes)

  -- its value, with the names that it has freed
  unfoldable pub do_traceroute :
      Options d
      → (gai : ℤ) → List AddrInfo
      → (array : Bool) → List (Sending × List Turn)
      → Run Tr (ℕ × List Name)
  do_traceroute o gai addresses array inputs =
      if traceroute_init gai addresses array
      then after_probes (settings_of o) (probe_loop (settings_of o) (rounds o) 0 inputs initial)
      else done (1, []) initial
