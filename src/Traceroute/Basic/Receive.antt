-- ===== src/Traceroute/Basic/Receive.antt =====
-- One probe of the two route tracers: what successive_traceroute sends, receives and writes down is
-- what basic_traceroute does.
use nnos.Prelude.{ℕ, ◌≡◌, ◌⊎◌, refl, Bool, true, false, Option, none, some, List, [], ◌∷◌, arith}
use nnos.Prelude.Int.{ℤ, pos, negsuc}
use nnos.Traceroute.Probe.{
  Addr, Cmsg, recverr, Turn, expired, interrupted, poll_failed, silent, neither, unreadable,
  message, ProbeInfo as LaterProbe, Tr as LaterTr, set_final_probe,
  parse_icmp_response as later_icmp, parse_one_cmsg as later_one_cmsg,
  parse_each_cmsg as later_each_cmsg, parse_cmsg as later_cmsg, received as later_received,
  traceroute_receive as later_receive,
}
use nnos.Traceroute.Hop.{
  Sending, Settings as LaterSettings, traceroute_send as later_send, send_probe as later_send_probe,
  fresh_probe,
}
use nnos.Traceroute.Basic.Probe.{
  ProbeInfo, Tr, Settings, parse_icmp_response, parse_one_cmsg, parse_each_cmsg, parse_cmsg,
  received, traceroute_receive, traceroute_send, send_probe, bind_socket, zero_probe,
  traceroute_init_probe,
}

-- what both versions keep of a probe
abbrev pub earlier : LaterProbe → ProbeInfo
earlier p = record {
  dest_port = p.dest_port;
  recv_addr = p.recv_addr;
  recv_ttl = p.recv_ttl;
  socket = p.socket;
  send_time = p.send_time;
  recv_time = p.recv_time;
  data_len = p.data_len;
  err_str = p.err_str;
}

-- The same probe at hand, and the same final probe, which is not set or is the one at hand.
pub record SameTrace (pn : ℕ) (tr : Tr) (later : LaterTr) : Type 0 where
  pub probe : tr.probes pn ≡ earlier (later.probes pn)
  pub final : tr.final_probe ≡ later.final_probe
  pub unset : (later.final_probe ≡ negsuc 0) ⊎ (later.final_probe ≡ pos pn)

icmp-Same :
    (pn type code : ℕ) (info : ℤ) (tr : Tr) (later : LaterTr)
    → SameTrace pn tr later
    → SameTrace pn (parse_icmp_response pn type code info tr) (later_icmp pn type code info later)
unfolding parse_icmp_response later_icmp set_final_probe
icmp-Same pn type code info tr later v = record {
  probe = ground (arith, v.probe);
  final = ground (arith, v.final, v.unset);
  unset = ground (arith, v.unset);
}

one_cmsg-Same :
    (pn : ℕ) (m : Cmsg) (tr : Tr) (later : LaterTr)
    → SameTrace pn tr later
    → SameTrace pn (parse_one_cmsg pn m tr) (later_one_cmsg pn m later)
unfolding parse_one_cmsg later_one_cmsg
one_cmsg-Same pn (recverr true a type code info) tr later v =
    icmp-Same pn type code info _ _
      (record { probe = ground (arith, v.probe); final = v.final; unset = v.unset })
one_cmsg-Same pn m tr later v = record {
  probe = ground (arith, v.probe);
  final = ground (arith, v.final);
  unset = ground (arith, v.unset);
}

each_cmsg-Same :
    (pn : ℕ) (msgs : List Cmsg) (tr : Tr) (later : LaterTr)
    → SameTrace pn tr later
    → SameTrace pn (parse_each_cmsg pn msgs tr) (later_each_cmsg pn msgs later)
unfolding parse_each_cmsg later_each_cmsg
each_cmsg-Same pn [] tr later v = v
each_cmsg-Same pn (m ∷ msgs) tr later v = each_cmsg-Same pn msgs _ _ (one_cmsg-Same pn m tr later v)

received-Same :
    (pn : ℕ) (e : Bool) (a : Addr) (now : ℕ) (msgs : List Cmsg) (tr : Tr) (later : LaterTr)
    → SameTrace pn tr later
    → SameTrace pn (received pn e a now msgs tr) (later_received pn e a now msgs later)
unfolding received later_received parse_cmsg later_cmsg set_final_probe
received-Same pn true a now msgs tr later v =
    let w = each_cmsg-Same pn msgs tr later v in
    record { probe = ground (arith, w.probe); final = w.final; unset = w.unset }
received-Same pn false a now msgs tr later v =
    let w = each_cmsg-Same pn msgs tr later v in
    record {
      probe = ground (arith, w.probe);
      final = ground (arith, w.final, w.unset);
      unset = ground (arith, w.unset);
    }

-- the same value, and the same probes and final probe
abbrev pub SameReply : ℕ → ℕ × Tr → ℕ × LaterTr → Type 0
SameReply pn (code, tr) (code', later) = (code ≡ code') × SameTrace pn tr later

abbrev pub SameAnswer : ℕ → Option (ℕ × Tr) → Option (ℕ × LaterTr) → Type 0
SameAnswer pn none none = Unit
SameAnswer pn (some r) (some r') = SameReply pn r r'
SameAnswer pn _ _ = ⊥

receive-Same :
    (pn : ℕ) (ts : List Turn) (tr : Tr) (later : LaterTr)
    → SameTrace pn tr later
    → SameAnswer pn (traceroute_receive pn ts tr) (later_receive pn ts later)
unfolding traceroute_receive later_receive
receive-Same pn [] tr later v = tt
receive-Same pn (expired ∷ ts) tr later v = (refl, v)
receive-Same pn (interrupted ∷ ts) tr later v = receive-Same pn ts tr later v
receive-Same pn (poll_failed ∷ ts) tr later v = (refl, v)
receive-Same pn (silent ∷ ts) tr later v = (refl, v)
receive-Same pn (neither ∷ ts) tr later v = (refl, v)
receive-Same pn (unreadable ∷ ts) tr later v = receive-Same pn ts tr later v
receive-Same pn (message e a now msgs ∷ ts) tr later v =
    (refl, received-Same pn e a now msgs tr later v)

-- the same options for a probe
abbrev pub SameSettings : Settings → LaterSettings → Type 0
SameSettings o later =
    (o.port_seq ≡ later.port_seq) × (o.port ≡ later.port) × (o.packet_len ≡ later.packet_len)

send-Same :
    (o : Settings) (settings : LaterSettings) (pn : ℕ) (s : Sending)
    → SameSettings o settings
    → ((send_probe o pn s zero_probe).0 ≡ (later_send_probe settings pn s fresh_probe).0)
      × ((send_probe o pn s zero_probe).1 ≡ earlier (later_send_probe settings pn s fresh_probe).1)
unfolding send_probe later_send_probe bind_socket
send-Same o settings pn s same = ground arith

-- With the same options for a probe, and no final probe set, let basic_traceroute send a probe that
-- traceroute_init_probe has cleared, and successive_traceroute one that is as traceroute_init left
-- it. If the same replies come back, traceroute_send returns the same value in both and leaves the
-- same in the probe, and so does traceroute_receive after it; it also sets the same final probe.
pub exchange-Same :
    (o : Settings) (settings : LaterSettings) (pn : ℕ) (s : Sending) (ts : List Turn) (tr : Tr)
    (later : LaterTr)
    → SameSettings o settings
    → later.probes pn ≡ fresh_probe
    → tr.final_probe ≡ negsuc 0
    → later.final_probe ≡ negsuc 0
    → let (code, t) = traceroute_send o pn s (traceroute_init_probe pn tr) in
      let (code', u) = later_send settings pn s later in
      SameReply pn (code, t) (code', u)
      × SameAnswer pn (traceroute_receive pn ts t) (later_receive pn ts u)
unfolding traceroute_send later_send traceroute_init_probe
exchange-Same o settings pn s ts tr later same fresh none_here none_there =
    let (code, p) = send-Same o settings pn s same in
    let v : SameTrace pn (traceroute_send o pn s (traceroute_init_probe pn tr)).1
        (later_send settings pn s later).1 =
      record { probe = ground (arith, fresh, p); final = ground arith; unset = ground arith } in
    ((ground (arith, fresh, code), v), receive-Same pn ts _ _ v)
