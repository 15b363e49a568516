-- ===== src/Traceroute/Threaded/Tests.antt =====
-- Two probes of the threaded route tracer on concrete replies.
use nnos.Prelude.{◌≡◌, refl, true, some}
use nnos.Prelude.Int.{pos}
use nnos.Traceroute.Hop.{
  Settings, send_probe, traceroute_send, initial, find_name, same_ipaddr, addr2str,
}
use nnos.Traceroute.Probe.{response_text, unreach_text}
use nnos.Traceroute.Threaded.{
  parse_icmp_response, parse_one_cmsg, parse_each_cmsg, parse_cmsg, answer, received,
  traceroute_receive, after_send, do_one_probe,
}
use nnos.Traceroute.Threaded.Order.{final_of, two_probes, final_any_order}
use nnos.Traceroute.Tests.{sent, from_router, from_target}

abbrev settings : Settings
settings = record { per_ttl = 3; port_seq = true; port = 33434; packet_len = 40 }

later_first :
    final_of (two_probes settings 5 sent from_target 4 sent from_target initial) ≡ some (pos 4)
unfolding do_one_probe after_send traceroute_send send_probe traceroute_receive received answer
    parse_cmsg parse_each_cmsg parse_one_cmsg parse_icmp_response response_text unreach_text
    find_name same_ipaddr addr2str
later_first = refl

final_any_order_example :
    final_of (two_probes settings 5 sent from_target 4 sent from_router initial)
    ≡ final_of (two_probes settings 4 sent from_router 5 sent from_target initial)
final_any_order_example = final_any_order settings 5 sent from_target 4 sent from_router initial
