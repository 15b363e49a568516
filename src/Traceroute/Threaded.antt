-- ===== src/Traceroute/Threaded.antt =====
-- 07-sockets/traceroute/threaded_traceroute_partial_mq_sem/ip_stuff.c: one probe, where it differs from
-- successive_traceroute: parse_icmp_response and traceroute_receive set the final probe themselves. The
-- functions that are the same in both files are those of Traceroute/Probe and Traceroute/Hop. The file
-- of the threads leaves them to the reader, so a probe is one step here.
pub mod Order
mod Tests
use nnos.Prelude.{
  ℕ, zero, suc, Bool, true, false, ◌&&◌, ◌||◌, Option, none, some, List, [], ◌∷◌, if◌then◌else◌,
  ◌==◌,
}
use nnos.Prelude.Int.{ℤ, pos, negsuc, ltb_ℤ}
use nnos.Traceroute.Probe.{
  Addr, Cmsg, timestamp, ttl, recverr, other, Turn, expired, interrupted, poll_failed, silent,
  neither, unreadable, message, Tr, put, note, stamp, response_text, icmp_time_exceeded,
}
use nnos.Traceroute.Hop.{Settings, Sending, traceroute_send, after_receive, not_sent}

unfoldable pub parse_icmp_response : ℕ → (type code : ℕ) (info : ℤ) → Tr → Tr
parse_icmp_response pn type code info tr =
    let t = put tr pn (note (response_text type code info) (tr.probes pn)) in
    if type == icmp_time_exceeded && code == 0
    then tr
    else if ltb_ℤ tr.final_probe (pos 0) || ltb_ℤ (pos pn) tr.final_probe
    then record t { final_probe = pos pn }
    else t

unfoldable pub parse_one_cmsg : ℕ → Cmsg → Tr → Tr
parse_one_cmsg pn (timestamp t) tr = put tr pn (record (tr.probes pn) { recv_time = t })
parse_one_cmsg pn (ttl n) tr = put tr pn (record (tr.probes pn) { recv_ttl = n })
parse_one_cmsg pn (recverr true a type code info) tr =
    parse_icmp_response pn type code info (put tr pn (record (tr.probes pn) { recv_addr = a }))
parse_one_cmsg pn (recverr false a type code info) tr = tr
parse_one_cmsg pn other tr = tr

unfoldable pub parse_each_cmsg : ℕ → List Cmsg → Tr → Tr
parse_each_cmsg pn [] tr = tr
parse_each_cmsg pn (m ∷ ms) tr = parse_each_cmsg pn ms (parse_one_cmsg pn m tr)

unfoldable pub parse_cmsg : ℕ → (now : ℕ) → List Cmsg → Tr → Tr
parse_cmsg pn now ms tr = let t = parse_each_cmsg pn ms tr in put t pn (stamp now (t.probes pn))

-- what follows the loop of traceroute_receive, but for the socket
unfoldable pub answer : ℕ → (pollerr : Bool) (response : Addr) → Tr → Tr
answer pn true response tr = tr
answer pn false response tr =
    let t = put tr pn (record (tr.probes pn) { recv_addr = response }) in
    if ltb_ℤ t.final_probe (pos 0) || ltb_ℤ (pos pn) t.final_probe
    then record t { final_probe = pos pn }
    else t

unfoldable pub received : ℕ → (pollerr : Bool) (response : Addr) (now : ℕ) → List Cmsg → Tr → Tr
received pn pollerr response now ms tr =
    let u = answer pn pollerr response (parse_cmsg pn now ms tr) in
    put u pn (record (u.probes pn) { socket = negsuc 0 })

-- traceroute_receive: `none` when the turns end before the loop does.
unfoldable pub traceroute_receive : ℕ → List Turn → Tr → Option (ℕ × Tr)
traceroute_receive pn [] tr = none
traceroute_receive pn (expired ∷ ts) tr = some (1, tr)
traceroute_receive pn (interrupted ∷ ts) tr = traceroute_receive pn ts tr
traceroute_receive pn (poll_failed ∷ ts) tr = some (3, tr)
traceroute_receive pn (silent ∷ ts) tr = some (2, tr)
traceroute_receive pn (neither ∷ ts) tr = some (4, tr)
traceroute_receive pn (unreadable ∷ ts) tr = traceroute_receive pn ts tr
traceroute_receive pn (message e a now ms ∷ ts) tr = some (0, received pn e a now ms tr)

unfoldable pub after_send : Settings → ℕ → List Turn → ℕ × Tr → Option Tr
after_send o pn ts (zero, tr) = after_receive o pn (traceroute_receive pn ts tr)
after_send o pn ts (suc code, tr) = some (put tr pn (not_sent (tr.probes pn)))

-- do_one_probe; `none` while it still waits for an answer
unfoldable pub do_one_probe : Settings → ℕ → Sending → List Turn → Tr → Option Tr
do_one_probe o pn s ts tr = after_send o pn ts (traceroute_send o pn s tr)
