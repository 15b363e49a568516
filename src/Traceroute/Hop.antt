-- ===== src/Traceroute/Hop.antt =====
-- 07-sockets/traceroute/successive_traceroute: traceroute_send, do_one_probe, print_one_probe, the
-- release of the probes and do_traceroute. getnameinfo only fills the string that addr2str returns,
-- so of that string nothing but its address is kept; the printed texts are left out. close(2) is left
-- out too: of a socket that is closed only the -1 is kept, which the code writes after each close.
use nnos.Prelude.{
  ℕ, zero, suc, ◌+◌, ◌-◌, ◌%◌, ◌^◌, Bool, true, false, not, ◌&&◌, ◌||◌, Option, none, some, List,
  [], ◌∷◌, if◌then◌else◌, ◌==◌, Run, done, exited, blocked,
}
use nnos.Prelude.Int.{ℤ, pos, negsuc, ltb_ℤ}
use nnos.Traceroute.Probe.{
  Addr, unset, inet, inet6, Name, null, host_unknown, host_unknown_bad_af, heap, Text, blank,
  Result, probe_unknown, probe_ok, err_init, err_send, err_recv, err_timeout, ProbeInfo, Tr, put,
  Turn, traceroute_receive,
}

-- the options that a probe reads
pub record Settings : Type 0 where
  pub per_ttl : ℕ  -- opts.probes
  pub port_seq : Bool
  pub port : ℕ
  pub packet_len : ℕ

-- the replies of the calls of traceroute_send
pub record Sending : Type 0 where
  pub socket : ℤ
  pub bind : ℤ
  pub set_ttl : ℤ
  pub connect : ℤ
  pub set_recverr : ℤ
  pub time : ℕ
  pub send : ℤ

abbrev pub with_socket : ℤ → ProbeInfo → ProbeInfo
with_socket fd p = record p { socket = fd }

abbrev pub with_port : Settings → ℕ → ProbeInfo → ProbeInfo
with_port o pn p = if o.port_seq then record p { dest_port = (o.port + pn) % 2 ^ 16 } else p

abbrev pub with_data : Settings → ℕ → ProbeInfo → ProbeInfo
with_data o time p = record p { data_len = o.packet_len; send_time = time }

-- the value of traceroute_send, and what it leaves of the probe
unfoldable pub send_probe : Settings → ℕ → Sending → ProbeInfo → ℕ × ProbeInfo
send_probe o pn s p =
    let opened = with_socket s.socket p in
    let aimed = with_port o pn opened in
    let filled = with_data o s.time aimed in
    if ltb_ℤ s.socket (pos 0)
    then (3, opened)
    else if not (ltb_ℤ s.bind (pos 0)) && not (ltb_ℤ (pos 0) s.bind)
    then (if ltb_ℤ s.set_ttl (pos 0)
        then (5, opened)
        else if ltb_ℤ s.connect (pos 0)
        then (6, aimed)
        else if ltb_ℤ s.set_recverr (pos 0)
        then (5, aimed)
        else if ltb_ℤ s.send (pos 0)
        then (6, filled)
        else (0, filled))
    else (4, opened)

unfoldable pub traceroute_send : Settings → ℕ → Sending → Tr → ℕ × Tr
traceroute_send o pn s tr = let (code, p) = send_probe o pn s (tr.probes pn) in (code, put tr pn p)

unfoldable pub same_ipaddr : Addr → Addr → Bool
same_ipaddr (inet a) (inet b) = a == b
same_ipaddr (inet6 a) (inet6 b) = a == b
same_ipaddr _ _ = false

-- addr2str returns new memory, unless the family is 0
unfoldable pub addr2str : Addr → Tr → Name × Tr
addr2str unset tr = (host_unknown_bad_af, tr)
addr2str _ tr = (heap tr.allocated, record tr { allocated = tr.allocated + 1 })

abbrev pub is_null : Name → Bool
is_null null = true
is_null _ = false

abbrev pub is_blank : Text → Bool
is_blank blank = true
is_blank _ = false

-- "the 1st try on this TTL -> resolve hostname; other tries -> if the address is the same as
-- previous, use it, otherwise resolve"
unfoldable pub find_name : Settings → ℕ → Tr → Name × Tr
find_name o pn tr =
    let before = tr.probes (pn - 1) in
    let p = tr.probes pn in
    if pn % o.per_ttl == 0
      || not (same_ipaddr before.recv_addr p.recv_addr)
      || is_null before.recv_hostname
    then addr2str p.recv_addr tr
    else (before.recv_hostname, tr)

abbrev pub answered : Text → Result
answered t = if is_blank t then probe_ok else err_recv

abbrev pub named : Name → ProbeInfo → ProbeInfo
named n p = record p { probe_result = answered p.err_str; recv_hostname = n }

abbrev pub not_sent : ProbeInfo → ProbeInfo
not_sent p = record p { socket = negsuc 0; probe_result = err_send }

abbrev pub timed_out : ProbeInfo → ProbeInfo
timed_out p = record p {
  socket = negsuc 0;
  probe_result = err_timeout;
  recv_hostname = host_unknown;
}

abbrev pub after_receive : Settings → ℕ → Option (ℕ × Tr) → Option Tr
after_receive o pn none = none
after_receive o pn (some (zero, tr)) =
    let (n, t) = find_name o pn tr in some (put t pn (named n (t.probes pn)))
after_receive o pn (some (suc code, tr)) = some (put tr pn (timed_out (tr.probes pn)))

abbrev pub after_send : Settings → ℕ → List Turn → ℕ × Tr → Option Tr
after_send o pn ts (zero, tr) = after_receive o pn (traceroute_receive pn ts tr)
after_send o pn ts (suc code, tr) = some (put tr pn (not_sent (tr.probes pn)))

-- do_one_probe; `none` while it still waits for an answer
unfoldable pub do_one_probe : Settings → ℕ → Sending → List Turn → Tr → Option Tr
do_one_probe o pn s ts tr = after_send o pn ts (traceroute_send o pn s tr)

-- print_one_probe ends the process for the errors before the sending
unfoldable pub print_exits : Result → Bool
print_exits err_init = true
print_exits err_send = true
print_exits _ = false

abbrev pub stops : Settings → ℕ → Tr → Bool
stops o pn tr = not (ltb_ℤ tr.final_probe (pos 0)) && (pn % o.per_ttl == o.per_ttl - 1)

-- The loop of do_traceroute, from probe `pn` with `count` probes left; each probe has the replies
-- it meets. It is blocked where the replies end.
unfoldable pub probe_loop :
    Settings → (count pn : ℕ) → List (Sending × List Turn) → Tr → Run Tr (Unit {0})
probe_loop o zero pn inputs tr = done tt tr
probe_loop o (suc count) pn [] tr = blocked
probe_loop o (suc count) pn ((s, ts) ∷ inputs) tr = elim (do_one_probe o pn s ts tr) [
  | none ↦ blocked
  | some t ↦
      if print_exits (t.probes pn).probe_result
      then exited 1 t
      else (if stops o pn t then done tt t else probe_loop o count (suc pn) inputs t)
]

abbrev pub fresh_probe : ProbeInfo
fresh_probe = record {
  probe_result = probe_unknown;
  dest_port = 0;
  recv_addr = unset;
  recv_hostname = null;
  recv_ttl = pos 0;
  socket = negsuc 0;
  send_time = 0;
  recv_time = 0;
  data_len = 0;
  err_str = blank;
}

-- traceroute_init: the array comes from calloc, with every socket set to -1
abbrev pub initial : Tr
initial = record { final_probe = negsuc 0; probes = λ pn. fresh_probe; allocated = 0 }
