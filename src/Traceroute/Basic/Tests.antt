-- ===== src/Traceroute/Basic/Tests.antt =====
-- basic_traceroute on concrete inputs.
use nnos.Prelude.{ℕ, zero, suc, ◌≡◌, ◌≢◌, ◌⊎◌, refl, true, List, [], ◌∷◌, done, arith, ◌+◌}
use nnos.Prelude.Int.{ℤ, pos, negsuc, ◌+ℤ◌, ◌-ℤ◌, ◌*ℤ◌, ◌≤ℤ◌}
use nnos.Traceroute.Tests.{micros, sent, from_router, from_target, no_answer}
use nnos.Traceroute.Outcome.{some_decides}
use nnos.Traceroute.Options.{default_options as later_default, read_arguments as later_read}
use nnos.Traceroute.Probe.{response_text, unreach_text, traceroute_receive as later_receive}
use nnos.Traceroute.Hop.{
  Settings as LaterSettings, traceroute_send as later_send, initial as later_initial,
}
use nnos.Traceroute.Basic.Options.{
  Options, default_options, Switch, opt_f, opt_n, opt_q, parse_option, parse_each, arguments,
  read_arguments,
}
use nnos.Traceroute.Basic.Agree.{later_switches, earlier_run, read_arguments_agree}
use nnos.Traceroute.Basic.Probe.{
  Token, level, answer, elapsed, star, newline, NameInfo, say, traceroute_init_probe, bind_socket,
  send_probe, traceroute_send, parse_icmp_response, parse_one_cmsg, parse_each_cmsg, parse_cmsg,
  received, traceroute_receive, addr2str, traceroute_get_host,
}
use nnos.Traceroute.Basic.Run.{
  Trace, returns, outside, Replies, index, one_probe, probe_at, hop_loop, ttl_loop, initial,
  traceroute_init, fits_all, settings_of, hops, do_traceroute,
}
use nnos.Traceroute.Basic.Receive.{SameReply, SameAnswer, exchange-Same}
use nnos.Traceroute.Basic.Hops.{Traced, do_traceroute-Traced}
use nnos.Traceroute.Basic.Early.{early_ttl-outside}

abbrev names : NameInfo
names = record { numeric = λ a before. 49 ∷ []; by_name = λ a before. [] }

-- "-n -q 1"
abbrev switches : List (Switch micros)
switches = opt_n ∷ opt_q (pos 1) ∷ []

abbrev host : List ℤ
host = pos 0 ∷ []

abbrev one_each : Options micros
one_each = record (default_options micros) { probes = pos 1; noresolve = true; dest_port = 33434 }

-- a router, a hop without an answer, the target
abbrev replies : Replies
replies zero = (sent, from_router)
replies (suc zero) = (sent, no_answer)
replies _ = (sent, from_target)

one_each_read : read_arguments micros switches host (default_options micros) ≡ done tt one_each
unfolding read_arguments parse_each parse_option arguments
one_each_read = refl

replies_decide : (pn : ℕ) → some_decides (replies pn).1 ≡ true
unfolding some_decides
replies_decide pn = ground arith

abbrev printed : Trace (Unit {0}) → List Token
printed (returns c t) = t.printed
printed _ = []

three_hops :
    printed (do_traceroute micros one_each names (pos 0) [] replies)
    ≡ level (pos 1)
      ∷ answer (49 ∷ [])
      ∷ elapsed (pos 50)
      ∷ newline
      ∷ level (pos 2)
      ∷ star
      ∷ newline
      ∷ level (pos 3)
      ∷ answer (49 ∷ [])
      ∷ elapsed (pos 70)
      ∷ newline
      ∷ []
unfolding do_traceroute ttl_loop hop_loop probe_at index one_probe traceroute_init fits_all
    traceroute_init_probe bind_socket send_probe traceroute_send parse_icmp_response parse_one_cmsg
    parse_each_cmsg parse_cmsg received traceroute_receive addr2str traceroute_get_host
    response_text unreach_text ◌+ℤ◌ ◌-ℤ◌ ◌*ℤ◌
three_hops = refl

read_arguments_agree_example :
    read_arguments micros switches host (default_options micros)
    ≡ earlier_run micros
        (later_read micros (later_switches micros switches) host (later_default micros))
read_arguments_agree_example = read_arguments_agree micros switches host

do_traceroute-Traced_example :
    ((traceroute_init (pos 0) [] ≢ 0)
      × (do_traceroute micros one_each names (pos 0) [] replies ≡ returns 1 initial))
    ⊎ Traced
        (settings_of micros one_each)
        replies
        1
        0
        (0 + hops micros one_each)
        (do_traceroute micros one_each names (pos 0) [] replies)
do_traceroute-Traced_example =
    do_traceroute-Traced micros switches host one_each names (pos 0) [] replies one_each_read
      (omega arith) replies_decide

-- "-f 0"
abbrev from_zero : Options micros
from_zero = record (default_options micros) { first_ttl = pos 0; dest_port = 33434 }

from_zero_read :
    read_arguments micros (opt_f (pos 0) ∷ []) host (default_options micros) ≡ done tt from_zero
unfolding read_arguments parse_each parse_option arguments
from_zero_read = refl

early_ttl-outside_example :
    (do_traceroute micros from_zero names (pos 0) [] replies
      ≡ outside (index (pos 3) (pos 0) 0) (say (level (pos 0)) initial))
    × (index (pos 3) (pos 0) 0 ≤ℤ negsuc 0)
unfolding traceroute_init fits_all
early_ttl-outside_example =
    early_ttl-outside micros from_zero names (pos 0) [] replies (omega arith) (omega arith)
      (omega arith) refl

abbrev later_settings : LaterSettings
later_settings = record { per_ttl = 1; port_seq = true; port = 33434; packet_len = 40 }

exchange-Same_example :
    let (code, t) =
      traceroute_send (settings_of micros one_each) 2 sent (traceroute_init_probe 2 initial) in
    let (code', u) = later_send later_settings 2 sent later_initial in
    SameReply 2 (code, t) (code', u)
    × SameAnswer 2 (traceroute_receive 2 from_target t) (later_receive 2 from_target u)
exchange-Same_example =
    exchange-Same (settings_of micros one_each) later_settings 2 sent from_target initial
      later_initial (refl, refl, refl) refl refl refl
