-- ===== src/Traceroute/Basic/Probe.antt =====
-- 07-sockets/traceroute/basic_traceroute/traceroute.c: one probe, from traceroute_init_probe to
-- traceroute_get_host. The replies of the sockets are arguments; times are in microseconds, and 0 is
-- the 0.0 of a probe that has no time yet. local_addr and the bytes of the packet are left out.
use nnos.Prelude.{
  ℕ, ◌+◌, ◌%◌, ◌^◌, Bool, true, false, not, ◌&&◌, Option, none, some, List, [], ◌∷◌, ◌++◌,
  if◌then◌else◌, ◌==◌,
}
use nnos.Prelude.Int.{ℤ, pos, negsuc, ltb_ℤ, eqb_ℤ}
use nnos.Traceroute.Probe.{
  Addr, unset, Text, blank, response_text, icmp_time_exceeded, Cmsg, timestamp, ttl, recverr, other,
  Turn, expired, interrupted, poll_failed, silent, neither, unreadable, message,
}
use nnos.Traceroute.Hop.{Sending}

-- a C string, by its bytes
abbrev pub String : Type 0
String = List ℕ

pub record ProbeInfo : Type 0 where
  pub dest_port : ℕ
  pub recv_addr : Addr
  pub recv_ttl : ℤ
  pub socket : ℤ
  pub send_time : ℕ
  pub recv_time : ℕ
  pub data_len : ℕ
  pub err_str : Text

-- what do_traceroute prints after its first line
pub data Token : Type 0 where
  level : (ttl : ℤ) → Token  -- "%2u."
  answer : String → Token
  elapsed : (microseconds : ℤ) → Token  -- "  %.3f ms"
  failure : Text → Token
  star newline : Token

-- struct traceroute_info, the buffer of addr2str, and the output in the order of printing
pub record Tr : Type 0 where
  pub final_probe : ℤ
  pub probes : ℕ → ProbeInfo
  pub addr2str_buf : String
  pub printed : List Token

-- the options that a probe reads
pub record Settings : Type 0 where
  pub port_seq : Bool
  pub port : ℕ
  pub packet_len : ℕ
  pub noresolve : Bool

-- getnameinfo for a number and for a name: the address and what the buffer held give what it holds
pub record NameInfo : Type 0 where
  pub numeric : Addr → String → String
  pub by_name : Addr → String → String

abbrev pub write : (ℕ → ProbeInfo) → ℕ → ProbeInfo → ℕ → ProbeInfo
write f i v j = if j == i then v else f j

abbrev pub put : Tr → ℕ → ProbeInfo → Tr
put tr pn p = record tr { probes = write tr.probes pn p }

abbrev pub say : Token → Tr → Tr
say x tr = record tr { printed = tr.printed ++ x ∷ [] }

-- all bytes 0
abbrev pub zero_probe : ProbeInfo
zero_probe = record {
  dest_port = 0;
  recv_addr = unset;
  recv_ttl = pos 0;
  socket = pos 0;
  send_time = 0;
  recv_time = 0;
  data_len = 0;
  err_str = blank;
}

unfoldable pub traceroute_init_probe : ℕ → Tr → Tr
traceroute_init_probe pn tr = put tr pn zero_probe

unfoldable pub bind_socket : ℤ → ℕ
bind_socket rc = if eqb_ℤ rc (pos 0) then 0 else 4

-- the value of traceroute_send, and what it leaves of the probe
unfoldable pub send_probe : Settings → ℕ → Sending → ProbeInfo → ℕ × ProbeInfo
send_probe o pn s p =
    let opened = record p { socket = s.socket } in
    let aimed =
      if o.port_seq then record opened { dest_port = (o.port + pn) % 2 ^ 16 } else opened in
    let filled = record aimed { data_len = o.packet_len; send_time = s.time } in
    if ltb_ℤ s.socket (pos 0)
    then (3, opened)
    else if not (bind_socket s.bind == 0)
    then (4, opened)
    else if ltb_ℤ s.set_ttl (pos 0)
    then (5, opened)
    else if ltb_ℤ s.connect (pos 0)
    then (6, aimed)
    else if ltb_ℤ s.set_recverr (pos 0)
    then (5, aimed)
    else if ltb_ℤ s.send (pos 0)
    then (6, filled)
    else (0, filled)

unfoldable pub traceroute_send : Settings → ℕ → Sending → Tr → ℕ × Tr
traceroute_send o pn s tr = let (code, p) = send_probe o pn s (tr.probes pn) in (code, put tr pn p)

abbrev pub note : Option Text → ProbeInfo → ProbeInfo
note none p = p
note (some t) p = record p { err_str = t }

-- Every response but an expired TTL ends the trace at this probe.
unfoldable pub parse_icmp_response : ℕ → (type code : ℕ) (info : ℤ) → Tr → Tr
parse_icmp_response pn type code info tr =
    if type == icmp_time_exceeded && code == 0
    then tr
    else record (put tr pn (note (response_text type code info) (tr.probes pn))) {
      final_probe = pos pn;
    }

-- the body of the loop of parse_cmsg
unfoldable pub parse_one_cmsg : ℕ → Cmsg → Tr → Tr
parse_one_cmsg pn (timestamp t) tr = put tr pn (record (tr.probes pn) { recv_time = t })
parse_one_cmsg pn (ttl n) tr = put tr pn (record (tr.probes pn) { recv_ttl = n })
parse_one_cmsg pn (recverr true a type code info) tr =
    parse_icmp_response pn type code info (put tr pn (record (tr.probes pn) { recv_addr = a }))
parse_one_cmsg pn (recverr false a type code info) tr = tr
parse_one_cmsg pn other tr = tr

unfoldable pub parse_each_cmsg : ℕ → List Cmsg → Tr → Tr
parse_each_cmsg pn [] tr = tr
parse_each_cmsg pn (m ∷ ms) tr = parse_each_cmsg pn ms (parse_one_cmsg pn m tr)

-- `now` is what get_time returns
abbrev pub stamp : ℕ → ProbeInfo → ProbeInfo
stamp now p = if p.recv_time == 0 then record p { recv_time = now } else p

unfoldable pub parse_cmsg : ℕ → (now : ℕ) → List Cmsg → Tr → Tr
parse_cmsg pn now ms tr = let t = parse_each_cmsg pn ms tr in put t pn (stamp now (t.probes pn))

-- what follows the loop of traceroute_receive
unfoldable pub received : ℕ → (pollerr : Bool) (response : Addr) (now : ℕ) → List Cmsg → Tr → Tr
received pn pollerr response now ms tr =
    let t = parse_cmsg pn now ms tr in
    let u =
      if pollerr then t else record (put t pn (record (t.probes pn) { recv_addr = response })) {
        final_probe = pos pn;
      } in
    put u pn (record (u.probes pn) { socket = negsuc 0 })

-- traceroute_receive: `none` when the turns end before the loop does.
unfoldable pub traceroute_receive : ℕ → List Turn → Tr → Option (ℕ × Tr)
traceroute_receive pn [] tr = none
traceroute_receive pn (expired ∷ ts) tr = some (1, tr)
traceroute_receive pn (interrupted ∷ ts) tr = traceroute_receive pn ts tr
traceroute_receive pn (poll_failed ∷ ts) tr = some (3, tr)
traceroute_receive pn (silent ∷ ts) tr = some (2, tr)
traceroute_receive pn (neither ∷ ts) tr = some (4, tr)
traceroute_receive pn (unreadable ∷ ts) tr = traceroute_receive pn ts tr
traceroute_receive pn (message e a now ms ∷ ts) tr = some (0, received pn e a now ms tr)

unfoldable pub addr2str : NameInfo → Addr → Tr → String × Tr
addr2str n a tr = let str = n.numeric a tr.addr2str_buf in (str, record tr { addr2str_buf = str })

-- The test of the family has no `else`: its "*" is overwritten, so that it does not show here.
-- 32, 40 and 41 are the blank and the brackets of "%s (%s)".
unfoldable pub traceroute_get_host : Settings → NameInfo → ℕ → Tr → String × Tr
traceroute_get_host o n pn tr =
    let a = (tr.probes pn).recv_addr in
    let (str, t) = addr2str n a tr in
    if o.noresolve then (str, t) else (n.by_name a [] ++ 32 ∷ 40 ∷ str ++ 41 ∷ [], t)
