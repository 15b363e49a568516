-- ===== src/Traceroute/Tests.antt =====
-- traceroute on concrete inputs.
use nnos.Prelude.{ℕ, ◌<◌, ◌≡◌, refl, true, false, some, List, [], ◌∷◌, ltb, done, arith, Run}
use nnos.Prelude.Int.{ℤ, pos, ◌*ℤ◌}
use nnos.Traceroute.Options.{
  Double, Options, default_options, Switch, opt_m, parse_option, parse_each, parse_options,
  arguments, read_arguments,
}
use nnos.Traceroute.Ranges.{DoubleOrder, InRange, read_arguments-InRange}
use nnos.Traceroute.Probe.{
  Name, inet, heap, host_unknown_bad_af, Tr, put, Turn, interrupted, silent, message, ttl, recverr,
  set_final_probe, parse_icmp_response, response_text, unreach_text, parse_one_cmsg,
  parse_each_cmsg, parse_cmsg, received, traceroute_receive,
}
use nnos.Traceroute.Hop.{
  Sending, send_probe, traceroute_send, same_ipaddr, addr2str, find_name, do_one_probe, print_exits,
  probe_loop, initial, fresh_probe,
}
use nnos.Traceroute.Memory.{
  used_elsewhere, traceroute_free_mem_probe, free_probes, free_names, copy_addresses,
  traceroute_init, settings_of, do_traceroute,
}
use nnos.Traceroute.Outcome.{Settled, Frame, some_decides, do_one_probe-Settled}
use nnos.Traceroute.Leaks.{contains, free_names_all}
use nnos.Traceroute.Run.{Frees, do_traceroute-Frees}

-- a `double` of whole microseconds
abbrev pub micros : Double
micros = record {
  Value = ℕ;
  lt = ltb;
  zero_s = 0;
  def_timeout = 5_000_000;
  max_timeout = 300_000_000;
}

micros-DoubleOrder : DoubleOrder micros
micros-DoubleOrder = record {
  zero_zero = refl;
  def_zero = refl;
  max_zero = refl;
  max_def = refl;
  max_max = refl;
}

abbrev switches : List (Switch micros)
switches = opt_m (pos 2) ∷ []

abbrev host : List ℤ
host = pos 0 ∷ []

abbrev two_hops : Options micros
two_hops = record (default_options micros) { max_ttl = pos 2; dest_port = 33434 }

two_hops_read : read_arguments micros switches host (default_options micros) ≡ done tt two_hops
unfolding read_arguments parse_options parse_each parse_option arguments
two_hops_read = refl

two_hops-InRange : InRange micros two_hops × (0 < two_hops.dest_port)
two_hops-InRange =
    read_arguments-InRange micros micros-DoubleOrder switches host two_hops two_hops_read

abbrev pub sent : Sending
sent = record {
  socket = pos 3;
  bind = pos 0;
  set_ttl = pos 0;
  connect = pos 0;
  set_recverr = pos 0;
  time = 100;
  send = pos 40;
}

-- the router 9 lets no packet through; the target 7 has no such port
abbrev pub from_router : List Turn
from_router = interrupted ∷ message true (inet 0) 150 (recverr true (inet 9) 11 0 (pos 0) ∷ []) ∷ []

abbrev pub from_target : List Turn
from_target = message true (inet 0) 170 (ttl (pos 63) ∷ recverr true (inet 7) 3 3 (pos 0) ∷ []) ∷ []

abbrev pub no_answer : List Turn
no_answer = silent ∷ []

-- an error of the own host, which names no sender
abbrev own_error : List Turn
own_error = message true (inet 0) 150 (recverr false (inet 0) 0 0 (pos 0) ∷ []) ∷ []

abbrev inputs : List (Sending × List Turn)
inputs =
    (sent, from_router)
    ∷ (sent, no_answer)
    ∷ (sent, own_error)
    ∷ (sent, from_target)
    ∷ (sent, from_target)
    ∷ (sent, from_target)
    ∷ []

do_one_probe-Settled_example :
    (t : Tr) × (do_one_probe (settings_of micros two_hops) 0 sent from_router initial ≡ some t)
    × Settled (t.probes 0)
    × Frame 0 initial t
unfolding some_decides
do_one_probe-Settled_example =
    do_one_probe-Settled (settings_of micros two_hops) 0 sent from_router initial refl

do_traceroute-Frees_example : Frees (do_traceroute micros two_hops (pos 0) [] true inputs)
do_traceroute-Frees_example =
    do_traceroute-Frees micros two_hops (pos 0) [] true inputs two_hops-InRange.0

abbrev freed : Run Tr (ℕ × List Name) → List Name
freed (done (code, names) t) = names
freed _ = []

-- The static "*(bad AF)" goes to free, and the name of the target, which three probes share, does
-- not, because the release stops at the final probe.
freed_names :
    freed (do_traceroute micros two_hops (pos 0) [] true inputs) ≡ heap 0 ∷ host_unknown_bad_af ∷ []
unfolding do_traceroute traceroute_init copy_addresses probe_loop do_one_probe traceroute_send
    send_probe traceroute_receive received parse_cmsg parse_each_cmsg parse_one_cmsg
    parse_icmp_response response_text unreach_text set_final_probe find_name same_ipaddr addr2str
    print_exits free_names free_probes traceroute_free_mem_probe used_elsewhere ◌*ℤ◌
freed_names = refl

abbrev bad_name : Tr
bad_name = record (put initial 1 (record fresh_probe { recv_hostname = host_unknown_bad_af })) {
  final_probe = pos 2;
}

free_names_all_example :
    contains host_unknown_bad_af (free_names (settings_of micros two_hops) bad_name).0 ≡ true
free_names_all_example =
    free_names_all (settings_of micros two_hops) 2 1 host_unknown_bad_af bad_name (refl, refl) refl
      (omega arith) refl (λ i h. ground arith)
