-- ===== src/Traceroute/Basic/Run.antt =====
-- 07-sockets/traceroute/basic_traceroute/traceroute.c: traceroute_init and do_traceroute. Each probe
-- is made once, and the replies that it meets are given by its number.
use nnos.Prelude.{
  ℕ, zero, suc, Bool, true, false, Option, none, some, List, [], ◌∷◌, if◌then◌else◌, ltb, ◌==◌,
}
use nnos.Prelude.Int.{ℤ, pos, negsuc, ◌+ℤ◌, ◌-ℤ◌, ◌*ℤ◌, ltb_ℤ, eqb_ℤ, pos_part, sub_ℕ}
use nnos.Traceroute.Probe.{Text, blank, Turn}
use nnos.Traceroute.Hop.{Sending}
use nnos.Traceroute.Options.{Double}
use nnos.Traceroute.Basic.Options.{Options}
use nnos.Traceroute.Basic.Probe.{
  ProbeInfo, level, answer, elapsed, failure, star, newline, Tr, Settings, NameInfo, put, say,
  zero_probe, traceroute_init_probe, traceroute_send, traceroute_receive, traceroute_get_host,
}

-- the probing as it goes on, returns a status, reads and writes outside the array of probes, or is
-- for ever in a wait
pub data Trace (A : Type 0) : Type 0 where
  goes : A → Tr → Trace A
  returns : ℕ → Tr → Trace A
  outside : (pn : ℤ) → Tr → Trace A
  waits : Trace A

abbrev pub Replies : Type 0
Replies = ℕ → Sending × List Turn

-- MAX_TTL * MAX_PROBES
abbrev pub array_size : ℕ
array_size = 2550

-- the probe of that number, if the array has it
abbrev pub in_array : ℤ → Option ℕ
in_array (pos n) = if ltb n array_size then some n else none
in_array (negsuc n) = none

-- pn = (ttl-1)*opts.probes + probe
unfoldable pub index : (probes ttl : ℤ) → (probe : ℕ) → ℤ
index probes ttl probe = (ttl -ℤ pos 1) *ℤ probes +ℤ pos probe

-- close(tr.probes[pn].socket); tr.probes[pn].socket = -1;
abbrev pub closed : ℕ → Tr → Tr
closed pn tr = put tr pn (record (tr.probes pn) { socket = negsuc 0 })

abbrev pub is_blank : Text → Bool
is_blank blank = true
is_blank _ = false

abbrev pub print_time : ProbeInfo → Tr → Tr
print_time p tr = if p.recv_time == 0 then tr else say (elapsed (sub_ℕ p.recv_time p.send_time)) tr

abbrev pub print_err : ProbeInfo → Tr → Tr
print_err p tr = if is_blank p.err_str then tr else say (failure p.err_str) tr

-- the host is printed once for a hop
abbrev pub print_host : Settings → NameInfo → ℕ → (printed : Bool) → Tr → Tr
print_host o n pn true tr = tr
print_host o n pn false tr = let (str, t) = traceroute_get_host o n pn tr in say (answer str) t

abbrev pub print_answer : Settings → NameInfo → ℕ → (printed : Bool) → Tr → Tr
print_answer o n pn printed tr =
    let t = print_host o n pn printed tr in
    let u = print_time (t.probes pn) t in print_err (u.probes pn) u

module _ (o : Settings) (n : NameInfo) (replies : Replies) where
  abbrev pub after_receive : ℕ → (printed : Bool) → Option (ℕ × Tr) → Trace Bool
  after_receive pn printed none = waits
  after_receive pn printed (some (zero, tr)) = goes true (print_answer o n pn printed tr)
  after_receive pn printed (some (suc rc, tr)) = goes printed (say star (closed pn tr))

  abbrev pub after_send : ℕ → (printed : Bool) → ℕ × Tr → Trace Bool
  after_send pn printed (zero, tr) =
      after_receive pn printed (traceroute_receive pn (replies pn).1 tr)
  after_send pn printed (suc rc, tr) = returns 3 (closed pn tr)

  -- the body of the inner loop for a probe that the array has
  unfoldable pub one_probe : ℕ → (printed : Bool) → Tr → Trace Bool
  one_probe pn printed tr =
      after_send pn printed (traceroute_send o pn (replies pn).0 (traceroute_init_probe pn tr))

  unfoldable pub probe_at : ℤ → (printed : Bool) → Tr → Trace Bool
  probe_at i printed tr = elim (in_array i) [
    | none ↦ outside i tr
    | some pn ↦ one_probe pn printed tr
  ]

  -- the inner loop, from `probe` on, with `count` probes of this hop left
  unfoldable pub hop_loop :
      (probes ttl : ℤ) → (count probe : ℕ) → (printed : Bool) → Tr → Trace (Unit {0})
  hop_loop probes ttl zero probe printed tr = goes tt tr
  hop_loop probes ttl (suc count) probe printed tr =
      elim (probe_at (index probes ttl probe) printed tr) [
        | goes printed' t ↦ hop_loop probes ttl count (suc probe) printed' t
        | returns c t ↦ returns c t
        | outside i t ↦ outside i t
        | waits ↦ waits
      ]

  -- The outer loop, with `count` hops left; it ends after a hop that has set the final probe.
  unfoldable pub ttl_loop : (probes : ℤ) (count : ℕ) → (ttl : ℤ) → Tr → Trace (Unit {0})
  ttl_loop probes zero ttl tr = returns 0 tr
  ttl_loop probes (suc count) ttl tr =
      elim (hop_loop probes ttl (pos_part probes) 0 false (say (level ttl) tr)) [
        | goes _ t ↦ elim (ltb_ℤ t.final_probe (pos 0)) [
          | true ↦ ttl_loop probes count (ttl +ℤ pos 1) (say newline t)
          | false ↦ returns 0 (say newline t)
        ]
        | returns c t ↦ returns c t
        | outside i t ↦ outside i t
        | waits ↦ waits
      ]

-- traceroute_init: the whole structure is 0, but for final_probe
abbrev pub initial : Tr
initial = record {
  final_probe = negsuc 0;
  probes = λ pn. zero_probe;
  addr2str_buf = [];
  printed = [];
}

-- what getaddrinfo returns of one address
pub record AddrInfo : Type 0 where
  pub is_inet : Bool
  pub fits : Bool  -- ai_addrlen is at most sizeof(tr.dest_addr)

unfoldable pub fits_all : List AddrInfo → Bool
fits_all [] = true
fits_all (a ∷ rest) = if a.is_inet then (if a.fits then fits_all rest else false) else fits_all rest

-- traceroute_init; `gai` is what getaddrinfo returns
unfoldable pub traceroute_init : (gai : ℤ) → List AddrInfo → ℕ
traceroute_init gai addresses =
    if eqb_ℤ gai (pos 0) then (if fits_all addresses then 0 else 1) else 1

module _ (d : Double) where
  abbrev pub settings_of : Options d → Settings
  settings_of o = record {
    port_seq = o.dest_port_seq;
    port = o.dest_port;
    packet_len = o.packet_len;
    noresolve = o.noresolve;
  }

  -- how often the outer loop is entered, if it does not end before
  abbrev pub hops : Options d → ℕ
  hops o = pos_part (o.max_ttl +ℤ pos 1 -ℤ o.first_ttl)

  unfoldable pub do_traceroute :
      Options d → NameInfo → (gai : ℤ) → List AddrInfo → Replies → Trace (Unit {0})
  do_traceroute o n gai addresses replies =
      if traceroute_init gai addresses == 0
      then ttl_loop (settings_of o) n replies o.probes (hops o) o.first_ttl initial
      else returns 1 initial
