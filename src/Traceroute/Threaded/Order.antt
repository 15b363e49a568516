-- ===== src/Traceroute/Threaded/Order.antt =====
-- 07-sockets/traceroute/threaded_traceroute_partial_mq_sem: the probes of two threads, one after the
-- other, and the final probe that they leave.
use nnos.Prelude.{
  ℕ, zero, suc, ◌≡◌, refl, ap, sym, ◌∙◌, Bool, true, false, not, ◌&&◌, ◌||◌, Option, none, some,
  List, [], ◌∷◌, if◌then◌else◌, ◌==◌, arith,
}
use nnos.Prelude.Int.{ℤ, pos, negsuc, ltb_ℤ}
use nnos.Traceroute.Probe.{
  Addr, Cmsg, recverr, Turn, expired, interrupted, poll_failed, silent, neither, unreadable,
  message, ProbeInfo, Tr, icmp_time_exceeded,
}
use nnos.Traceroute.Hop.{
  Settings, Sending, traceroute_send, send_probe, fresh_probe, find_name, addr2str, after_receive,
}
use nnos.Traceroute.Threaded.{
  parse_icmp_response, parse_one_cmsg, parse_each_cmsg, parse_cmsg, answer, received,
  traceroute_receive, after_send, do_one_probe,
}

-- the final probe once `pn` has reached the target, or has not
abbrev lower : Bool → ℕ → ℤ → ℤ
lower false pn f = f
lower true pn f = if ltb_ℤ f (pos 0) || ltb_ℤ (pos pn) f then pos pn else f

lower-lower : (a b : Bool) (pn : ℕ) (f : ℤ) → lower a pn (lower b pn f) ≡ lower (a || b) pn f
lower-lower true true pn (pos n) = ground arith
lower-lower true true pn (negsuc n) = ground arith
lower-lower true false pn f = refl
lower-lower false b pn f = refl

lower_comm : (a b : Bool) (p q : ℕ) (f : ℤ) → lower a p (lower b q f) ≡ lower b q (lower a p f)
lower_comm true true p q (pos n) = ground arith
lower_comm true true p q (negsuc n) = ground arith
lower_comm true false p q f = refl
lower_comm false b p q f = refl

-- whether an error message says that the target is reached
reaches : Cmsg → Bool
reaches (recverr true a type code info) =
    if type == icmp_time_exceeded && code == 0 then false else true
reaches _ = false

icmp-final :
    (pn type code : ℕ) (info : ℤ) (tr : Tr)
    → (parse_icmp_response pn type code info tr).final_probe
      ≡ lower (if type == icmp_time_exceeded && code == 0 then false else true) pn tr.final_probe
unfolding parse_icmp_response
icmp-final pn type code info tr = ground arith

one_cmsg-final :
    (pn : ℕ) (m : Cmsg) (tr : Tr)
    → (parse_one_cmsg pn m tr).final_probe ≡ lower (reaches m) pn tr.final_probe
unfolding parse_one_cmsg reaches
one_cmsg-final pn (recverr true a type code info) tr = icmp-final pn type code info _
one_cmsg-final pn m tr = refl

some_reaches : List Cmsg → Bool
some_reaches [] = false
some_reaches (m ∷ ms) = some_reaches ms || reaches m

each_cmsg-final :
    (pn : ℕ) (ms : List Cmsg) (tr : Tr)
    → (parse_each_cmsg pn ms tr).final_probe ≡ lower (some_reaches ms) pn tr.final_probe
unfolding parse_each_cmsg some_reaches
each_cmsg-final pn [] tr = refl
each_cmsg-final pn (m ∷ ms) tr =
    each_cmsg-final pn ms _
    ∙ ap (λ f. lower (some_reaches ms) pn f) (one_cmsg-final pn m tr)
    ∙ lower-lower (some_reaches ms) (reaches m) pn tr.final_probe

answer-final :
    (pn : ℕ) (e : Bool) (a : Addr) (tr : Tr)
    → (answer pn e a tr).final_probe ≡ lower (not e) pn tr.final_probe
unfolding answer
answer-final pn true a tr = refl
answer-final pn false a tr = ground arith

received-final :
    (pn : ℕ) (e : Bool) (a : Addr) (now : ℕ) (ms : List Cmsg) (tr : Tr)
    → (received pn e a now ms tr).final_probe ≡ lower (not e || some_reaches ms) pn tr.final_probe
unfolding received parse_cmsg
received-final pn e a now ms tr =
    answer-final pn e a _
    ∙ ap (λ f. lower (not e) pn f) (each_cmsg-final pn ms tr)
    ∙ lower-lower (not e) (some_reaches ms) pn tr.final_probe

-- whether the turns end the probe, and then whether it has reached the target
abbrev lowered : Option Bool → ℕ → ℤ → Option ℤ
lowered none pn f = none
lowered (some b) pn f = some (lower b pn f)

turns_reach : List Turn → Option Bool
turns_reach [] = none
turns_reach (interrupted ∷ ts) = turns_reach ts
turns_reach (unreadable ∷ ts) = turns_reach ts
turns_reach (message e a now ms ∷ ts) = some (not e || some_reaches ms)
turns_reach (_ ∷ ts) = some false

-- the final probe that a step leaves
abbrev pub final_of : Option Tr → Option ℤ
final_of none = none
final_of (some tr) = some tr.final_probe

find_name-final :
    (o : Settings) (pn : ℕ) (tr : Tr) → (find_name o pn tr).1.final_probe ≡ tr.final_probe
unfolding find_name addr2str
find_name-final o pn tr = ground arith

after_receive-final :
    (o : Settings) (pn : ℕ) (ts : List Turn) (tr : Tr)
    → final_of (after_receive o pn (traceroute_receive pn ts tr))
      ≡ lowered (turns_reach ts) pn tr.final_probe
unfolding traceroute_receive turns_reach
after_receive-final o pn [] tr = refl
after_receive-final o pn (expired ∷ ts) tr = refl
after_receive-final o pn (interrupted ∷ ts) tr = after_receive-final o pn ts tr
after_receive-final o pn (poll_failed ∷ ts) tr = refl
after_receive-final o pn (silent ∷ ts) tr = refl
after_receive-final o pn (neither ∷ ts) tr = refl
after_receive-final o pn (unreadable ∷ ts) tr = after_receive-final o pn ts tr
after_receive-final o pn (message e a now ms ∷ ts) tr =
    ap some (find_name-final o pn (received pn e a now ms tr) ∙ received-final pn e a now ms tr)

send_probe-code :
    (o : Settings) (pn : ℕ) (s : Sending) (p : ProbeInfo)
    → (send_probe o pn s p).0 ≡ (send_probe o pn s fresh_probe).0
unfolding send_probe
send_probe-code o pn s p = ground arith

-- what one probe does to the final probe: its replies decide it alone
probe_reaches : (code : ℕ) → List Turn → Option Bool
probe_reaches zero ts = turns_reach ts
probe_reaches (suc code) ts = some false

after_send-final :
    (o : Settings) (pn : ℕ) (ts : List Turn) (r : ℕ × Tr)
    → final_of (after_send o pn ts r) ≡ lowered (probe_reaches r.0 ts) pn r.1.final_probe
unfolding after_send probe_reaches
after_send-final o pn ts (zero, tr) = after_receive-final o pn ts tr
after_send-final o pn ts (suc code, tr) = refl

do_one_probe-final :
    (o : Settings) (pn : ℕ) (s : Sending) (ts : List Turn) (tr : Tr)
    → final_of (do_one_probe o pn s ts tr)
      ≡ lowered (probe_reaches (send_probe o pn s fresh_probe).0 ts) pn tr.final_probe
unfolding do_one_probe traceroute_send
do_one_probe-final o pn s ts tr =
    after_send-final o pn ts (traceroute_send o pn s tr)
    ∙ ap (λ c. lowered (probe_reaches c ts) pn tr.final_probe)
        (send_probe-code o pn s (tr.probes pn))

abbrev lowered_twice : Option Bool → ℕ → Option Bool → ℕ → ℤ → Option ℤ
lowered_twice none p b q f = none
lowered_twice (some a) p b q f = lowered b q (lower a p f)

lowered_twice_comm :
    (a : Option Bool) (p : ℕ) (b : Option Bool) (q : ℕ) (f : ℤ)
    → lowered_twice a p b q f ≡ lowered_twice b q a p f
lowered_twice_comm none p none q f = refl
lowered_twice_comm none p (some b) q f = refl
lowered_twice_comm (some a) p none q f = refl
lowered_twice_comm (some a) p (some b) q f = ap some (lower_comm b a q p f)

-- one probe after another has ended
abbrev pub and_then : (Tr → Option Tr) → Option Tr → Option Tr
and_then next none = none
and_then next (some tr) = next tr

and_then-final :
    (a : Option Bool) (p : ℕ) (b : Option Bool) (q : ℕ) (f : ℤ) (first : Option Tr)
    (next : Tr → Option Tr)
    → final_of first ≡ lowered a p f
    → ((tr : Tr) → final_of (next tr) ≡ lowered b q tr.final_probe)
    → final_of (and_then next first) ≡ lowered_twice a p b q f
and_then-final none p b q f none next first_ends next_ends = refl
and_then-final none p b q f (some t) next first_ends next_ends = cc
and_then-final (some a) p b q f none next first_ends next_ends = cc
and_then-final (some a) p b q f (some t) next first_ends next_ends =
    next_ends t ∙ ap (lowered b q) cc

-- two probes, one after the other
abbrev pub two_probes :
    Settings → (p : ℕ) → Sending → List Turn → (q : ℕ) → Sending → List Turn → Tr → Option Tr
two_probes o p s ts q u us tr = and_then (do_one_probe o q u us) (do_one_probe o p s ts tr)

two_probes-final :
    (o : Settings) (p : ℕ) (s : Sending) (ts : List Turn) (q : ℕ) (u : Sending) (us : List Turn)
    (tr : Tr)
    → final_of (two_probes o p s ts q u us tr)
      ≡ lowered_twice
          (probe_reaches (send_probe o p s fresh_probe).0 ts)
          p
          (probe_reaches (send_probe o q u fresh_probe).0 us)
          q
          tr.final_probe
two_probes-final o p s ts q u us tr =
    and_then-final (probe_reaches (send_probe o p s fresh_probe).0 ts) p _ q tr.final_probe
      (do_one_probe o p s ts tr) (do_one_probe o q u us) (do_one_probe-final o p s ts tr)
      (do_one_probe-final o q u us)

-- Two probes are made one after the other, each with its own replies. The final probe is the same in
-- either order, and so is whether both probes end.
pub final_any_order :
    (o : Settings) (p : ℕ) (s : Sending) (ts : List Turn) (q : ℕ) (u : Sending) (us : List Turn)
    (tr : Tr)
    → final_of (two_probes o p s ts q u us tr) ≡ final_of (two_probes o q u us p s ts tr)
final_any_order o p s ts q u us tr =
    two_probes-final o p s ts q u us tr
    ∙ lowered_twice_comm (probe_reaches (send_probe o p s fresh_probe).0 ts) p
        (probe_reaches (send_probe o q u fresh_probe).0 us) q tr.final_probe
    ∙ sym (two_probes-final o q u us p s ts tr)
