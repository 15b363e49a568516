-- ===== src/Traceroute/Probe.antt =====
-- 07-sockets/traceroute/successive_traceroute/ip_stuff.c and traceroute.h: one probe. The replies of
-- the sockets are arguments; times are in microseconds, the resolution of gettimeofday, and 0 is the
-- 0.0 of a probe that has no time yet. The array of probes is a function of the index.
use nnos.Prelude.{
  ℕ, Bool, true, false, ◌&&◌, ◌||◌, Option, none, some, List, [], ◌∷◌, if◌then◌else◌, ◌==◌,
}
use nnos.Prelude.Int.{ℤ, pos, negsuc, ltb_ℤ}

-- sockaddr_any, by its family: `unset` is a family of 0
pub data Addr : Type 0 where
  unset : Addr
  inet : (s_addr : ℕ) → Addr
  inet6 : (s6_addr : ℕ) → Addr

-- a `char *`: the static string "*", the static string "*(bad AF)", or memory from malloc
pub data Name : Type 0 where
  null host_unknown host_unknown_bad_af : Name
  heap : ℕ → Name

-- the contents of err_str, whose 16 bytes hold each of them whole
pub data Text : Type 0 where
  blank net host prohibited protocol srcfail precedence cutoff : Text
  needfrag : (info : ℤ) → Text  -- "!F-%d"
  other_code : (code : ℕ) → Text  -- "!<%u>"
  other_type : (type code : ℕ) → Text  -- "!<%u-%u>"

-- PROBE_UNKNOWN … PROBE_ERR_TIMEOUT
pub data Result : Type 0 where
  probe_unknown probe_ok err_init err_send err_recv err_timeout : Result

pub record ProbeInfo : Type 0 where
  pub probe_result : Result
  pub dest_port : ℕ
  pub recv_addr : Addr
  pub recv_hostname : Name
  pub recv_ttl : ℤ
  pub socket : ℤ
  pub send_time : ℕ
  pub recv_time : ℕ
  pub data_len : ℕ
  pub err_str : Text

-- struct traceroute_info, with a counter of the strings that malloc has returned
pub record Tr : Type 0 where
  pub final_probe : ℤ
  pub probes : ℕ → ProbeInfo
  pub allocated : ℕ

abbrev pub write : (ℕ → ProbeInfo) → ℕ → ProbeInfo → ℕ → ProbeInfo
write f i v j = if j == i then v else f j

abbrev pub put : Tr → ℕ → ProbeInfo → Tr
put tr pn p = record tr { probes = write tr.probes pn p }

unfoldable pub set_final_probe : ℕ → Tr → Tr
set_final_probe pn tr =
    if ltb_ℤ tr.final_probe (pos 0) || ltb_ℤ (pos pn) tr.final_probe
    then record tr { final_probe = pos pn }
    else tr

-- the numbers of netinet/ip_icmp.h (RFC 792 and RFC 1812)
abbrev pub icmp_dest_unreach : ℕ
icmp_dest_unreach = 3

abbrev pub icmp_time_exceeded : ℕ
icmp_time_exceeded = 11

-- the switch on the code of ICMP_DEST_UNREACH: `none` is NULL
unfoldable pub unreach_text : (code : ℕ) (info : ℤ) → Option Text
unreach_text code info =
    if code == 0 || code == 6 || code == 8 || code == 11
    then some net
    else if code == 1 || code == 7 || code == 12
    then some host
    else if code == 9 || code == 10 || code == 13
    then some prohibited
    else if code == 3
    then none
    else if code == 2
    then some protocol
    else if code == 4
    then some (needfrag info)
    else if code == 5
    then some srcfail
    else if code == 14
    then some precedence
    else if code == 15
    then some cutoff
    else some (other_code code)

-- `str` after the tests of the type and the test for an empty string
unfoldable pub response_text : (type code : ℕ) (info : ℤ) → Option Text
response_text type code info =
    if type == icmp_dest_unreach then unreach_text code info else some (other_type type code)

abbrev pub note : Option Text → ProbeInfo → ProbeInfo
note none p = p
note (some t) p = record p { err_str = t }

unfoldable pub parse_icmp_response : ℕ → (type code : ℕ) (info : ℤ) → Tr → Tr
parse_icmp_response pn type code info tr =
    if type == icmp_time_exceeded && code == 0
    then tr
    else set_final_probe pn (put tr pn (note (response_text type code info) (tr.probes pn)))

-- a control message, as parse_cmsg tells them apart
pub data Cmsg : Type 0 where
  timestamp : (time : ℕ) → Cmsg  -- SOL_SOCKET, SO_TIMESTAMP
  ttl : ℤ → Cmsg  -- SOL_IP, IP_TTL
  recverr : (origin_icmp : Bool) (offender : Addr) (type code : ℕ) (info : ℤ) → Cmsg
  other : Cmsg

unfoldable pub parse_one_cmsg : ℕ → Cmsg → Tr → Tr
parse_one_cmsg pn (timestamp t) tr = put tr pn (record (tr.probes pn) { recv_time = t })
parse_one_cmsg pn (ttl n) tr = put tr pn (record (tr.probes pn) { recv_ttl = n })
parse_one_cmsg pn (recverr true a type code info) tr =
    parse_icmp_response pn type code info (put tr pn (record (tr.probes pn) { recv_addr = a }))
parse_one_cmsg pn (recverr false a type code info) tr = tr
parse_one_cmsg pn other tr = tr

unfoldable pub parse_each_cmsg : ℕ → List Cmsg → Tr → Tr
parse_each_cmsg pn [] tr = tr
parse_each_cmsg pn (m ∷ ms) tr = parse_each_cmsg pn ms (parse_one_cmsg pn m tr)

-- `now` is what get_time returns
abbrev pub stamp : ℕ → ProbeInfo → ProbeInfo
stamp now p = if p.recv_time == 0 then record p { recv_time = now } else p

unfoldable pub parse_cmsg : ℕ → (now : ℕ) → List Cmsg → Tr → Tr
parse_cmsg pn now ms tr = let t = parse_each_cmsg pn ms tr in put t pn (stamp now (t.probes pn))

-- One turn of the loop of traceroute_receive: the sign of poll_timeout, then the reply of poll,
-- then that of recvmsg.
pub data Turn : Type 0 where
  expired : Turn  -- poll_timeout < 0
  interrupted : Turn  -- poll fails with EINTR
  poll_failed : Turn  -- poll fails with another error
  silent : Turn  -- poll returns 0
  neither : Turn  -- poll returns without POLLIN and POLLERR
  unreadable : Turn  -- recvmsg fails
  message : (pollerr : Bool) (response : Addr) (now : ℕ) → List Cmsg → Turn

-- what follows the loop
unfoldable pub received : ℕ → (pollerr : Bool) (response : Addr) (now : ℕ) → List Cmsg → Tr → Tr
received pn pollerr response now ms tr =
    let t = parse_cmsg pn now ms tr in
    let u =
      if pollerr
      then t
      else set_final_probe pn (put t pn (record (t.probes pn) { recv_addr = response })) in
    put u pn (record (u.probes pn) { socket = negsuc 0 })

-- traceroute_receive: `none` when the turns end before the loop does.
unfoldable pub traceroute_receive : ℕ → List Turn → Tr → Option (ℕ × Tr)
traceroute_receive pn [] tr = none
traceroute_receive pn (expired ∷ ts) tr = some (1, tr)
traceroute_receive pn (interrupted ∷ ts) tr = traceroute_receive pn ts tr
traceroute_receive pn (poll_failed ∷ ts) tr = some (3, tr)
traceroute_receive pn (silent ∷ ts) tr = some (2, tr)
traceroute_receive pn (neither ∷ ts) tr = some (4, tr)
traceroute_receive pn (unreadable ∷ ts) tr = traceroute_receive pn ts tr
traceroute_receive pn (message e a now ms ∷ ts) tr = some (0, received pn e a now ms tr)
