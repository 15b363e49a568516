-- ===== src/Traceroute/Basic/Frame.antt =====
-- What one probe of basic_traceroute changes: itself, and the final probe.
use nnos.Prelude.{
  ℕ, zero, suc, ◌≡◌, ◌≢◌, ◌⊎◌, inl, refl, Bool, true, false, some, List, [], ◌∷◌, arith, ◌∙◌, sym,
}
use nnos.Prelude.Int.{ℤ, pos, negsuc}
use nnos.Traceroute.Probe.{
  Addr, Cmsg, recverr, Turn, expired, interrupted, poll_failed, silent, neither, unreadable,
  message,
}
use nnos.Traceroute.Outcome.{some_decides}
use nnos.Traceroute.Basic.Probe.{
  ProbeInfo, Tr, Settings, NameInfo, put, parse_icmp_response, parse_one_cmsg, parse_each_cmsg,
  parse_cmsg, received, traceroute_receive, addr2str, traceroute_get_host, traceroute_init_probe,
  traceroute_send,
}
use nnos.Traceroute.Basic.Run.{
  Trace, goes, returns, outside, waits, Replies, print_answer, initial, after_receive, after_send,
  one_probe,
}

-- `t` differs from `tr` in probe `pn`, in the final probe if that is `pn` now, and in the output
pub record Touches (pn : ℕ) (tr t : Tr) : Type 0 where
  pub others : (j : ℕ) → j ≢ pn → t.probes j ≡ tr.probes j
  pub final : (t.final_probe ≡ tr.final_probe) ⊎ (t.final_probe ≡ pos pn)

Touches-refl : (pn : ℕ) (tr : Tr) → Touches pn tr tr
Touches-refl pn tr = record { others = λ j ne. refl; final = inl refl }

Touches-trans : {pn : ℕ} {a b c : Tr} → Touches pn a b → Touches pn b c → Touches pn a c
Touches-trans p q = record {
  others = λ j ne. q.others j ne ∙ p.others j ne;
  final = ground (arith, p.final, q.final);
}

put-Touches : (pn : ℕ) (tr : Tr) (p : ProbeInfo) → Touches pn tr (put tr pn p)
put-Touches pn tr p = record { others = λ j ne. ground arith; final = inl refl }

parse_icmp_response-Touches :
    (pn type code : ℕ) (info : ℤ) (tr : Tr)
    → Touches pn tr (parse_icmp_response pn type code info tr)
unfolding parse_icmp_response
parse_icmp_response-Touches pn type code info tr = record {
  others = λ j ne. ground arith;
  final = ground arith;
}

parse_one_cmsg-Touches : (pn : ℕ) (m : Cmsg) (tr : Tr) → Touches pn tr (parse_one_cmsg pn m tr)
unfolding parse_one_cmsg
parse_one_cmsg-Touches pn (recverr true a type code info) tr =
    Touches-trans (put-Touches pn tr _) (parse_icmp_response-Touches pn type code info _)
parse_one_cmsg-Touches pn m tr = record { others = λ j ne. ground arith; final = ground arith }

parse_each_cmsg-Touches :
    (pn : ℕ) (msgs : List Cmsg) (tr : Tr) → Touches pn tr (parse_each_cmsg pn msgs tr)
unfolding parse_each_cmsg
parse_each_cmsg-Touches pn [] tr = Touches-refl pn tr
parse_each_cmsg-Touches pn (m ∷ msgs) tr =
    Touches-trans (parse_one_cmsg-Touches pn m tr) (parse_each_cmsg-Touches pn msgs _)

received-Touches :
    (pn : ℕ) (e : Bool) (a : Addr) (now : ℕ) (msgs : List Cmsg) (tr : Tr)
    → Touches pn tr (received pn e a now msgs tr)
unfolding received parse_cmsg
received-Touches pn e a now msgs tr =
    Touches-trans (parse_each_cmsg-Touches pn msgs tr)
      (record { others = λ j ne. ground arith; final = ground arith })

received-closed :
    (pn : ℕ) (e : Bool) (a : Addr) (now : ℕ) (msgs : List Cmsg) (tr : Tr)
    → ((received pn e a now msgs tr).probes pn).socket ≡ negsuc 0
unfolding received
received-closed pn e a now msgs tr = ground arith

-- traceroute_receive closes the socket or leaves everything as it was.
abbrev Received : ℕ → Tr → ℕ × Tr → Type 0
Received pn tr (zero, t) = (((t.probes pn).socket ≡ negsuc 0) × Touches pn tr t)
Received pn tr (suc code, t) = t ≡ tr

receive-Received :
    (pn : ℕ) (ts : List Turn) (tr : Tr)
    → some_decides ts ≡ true
    → (r : ℕ × Tr) × (traceroute_receive pn ts tr ≡ some r) × Received pn tr r
unfolding traceroute_receive some_decides
receive-Received pn [] tr h = cc
receive-Received pn (expired ∷ ts) tr h = ((1, tr), refl, refl)
receive-Received pn (interrupted ∷ ts) tr h = receive-Received pn ts tr h
receive-Received pn (poll_failed ∷ ts) tr h = ((3, tr), refl, refl)
receive-Received pn (silent ∷ ts) tr h = ((2, tr), refl, refl)
receive-Received pn (neither ∷ ts) tr h = ((4, tr), refl, refl)
receive-Received pn (unreadable ∷ ts) tr h = receive-Received pn ts tr h
receive-Received pn (message e a now msgs ∷ ts) tr h = (
  (0, received pn e a now msgs tr),
  refl,
  (received-closed pn e a now msgs tr, received-Touches pn e a now msgs tr),
)

-- Printing changes no probe and not the final one.
abbrev Prints : Tr → Tr → Type 0
Prints tr t = (t.probes ≡ tr.probes) × (t.final_probe ≡ tr.final_probe)

print_answer-Prints :
    (o : Settings) (n : NameInfo) (pn : ℕ) (printed : Bool) (tr : Tr)
    → Prints tr (print_answer o n pn printed tr)
unfolding traceroute_get_host addr2str
print_answer-Prints o n pn true tr = ground arith
print_answer-Prints o n pn false tr = ground arith

-- the value of traceroute_send
abbrev pub send_code : Settings → Replies → ℕ → ℕ
send_code o replies pn = (traceroute_send o pn (replies pn).0 (traceroute_init_probe pn initial)).0

-- what is true after the body of the inner loop
abbrev pub Probed : Settings → Replies → ℕ → Tr → Trace Bool → Type 0
Probed o replies pn tr (goes p t) =
    (send_code o replies pn ≡ 0) × ((t.probes pn).socket ≡ negsuc 0) × Touches pn tr t
Probed o replies pn tr (returns c t) =
    (c ≡ 3) × (send_code o replies pn ≢ 0) × ((t.probes pn).socket ≡ negsuc 0) × Touches pn tr t
Probed o replies pn tr (outside i t) = ⊥
Probed o replies pn tr waits = ⊥

module _ (o : Settings) (n : NameInfo) (replies : Replies) where
  after_receive-Probed :
      (pn : ℕ) (printed : Bool) (tr u : Tr) (r : ℕ × Tr)
      → send_code o replies pn ≡ 0
      → Touches pn tr u
      → Received pn u r
      → Probed o replies pn tr (after_receive o n replies pn printed (some r))
  after_receive-Probed pn printed tr u (zero, t) sent before (shut, after) =
      let (same, final) = print_answer-Prints o n pn printed t in
      (
        sent,
        ground (arith, same, shut),
        Touches-trans before (
            Touches-trans after
              (record { others = λ j ne. ground (arith, same); final = inl final })),
      )
  after_receive-Probed pn printed tr u (suc rc, t) sent before same = (
    sent,
    ground arith,
    Touches-trans before
        (record { others = λ j ne. ground (arith, same); final = ground (arith, same) }),
  )

  send_code_lem :
      (pn : ℕ) (tr : Tr)
      → (traceroute_send o pn (replies pn).0 (traceroute_init_probe pn tr)).0
        ≡ send_code o replies pn
  unfolding traceroute_send traceroute_init_probe
  send_code_lem pn tr = ground arith

  send-Touches :
      (pn : ℕ) (tr : Tr)
      → Touches pn tr (traceroute_send o pn (replies pn).0 (traceroute_init_probe pn tr)).1
  unfolding traceroute_send traceroute_init_probe
  send-Touches pn tr = Touches-trans (put-Touches pn tr _) (put-Touches pn _ _)

  pub one_probe-Probed :
      (pn : ℕ) (printed : Bool) (tr : Tr)
      → some_decides (replies pn).1 ≡ true
      → Probed o replies pn tr (one_probe o n replies pn printed tr)
  unfolding one_probe
  one_probe-Probed pn printed tr decides =
      go (traceroute_send o pn (replies pn).0 (traceroute_init_probe pn tr)) (send_code_lem pn tr)
        (send-Touches pn tr)
    where
      go :
          (r : ℕ × Tr)
          → r.0 ≡ send_code o replies pn
          → Touches pn tr r.1
          → Probed o replies pn tr (after_send o n replies pn printed r)
      go (zero, u) code before =
          let (r, back, kept) = receive-Received pn (replies pn).1 u decides in
          rw back (after_receive-Probed pn printed tr u r (sym code) before kept)
      go (suc rc, u) code before = (
        refl,
        λ e. absurd (omega (arith, code, e)),
        ground arith,
        Touches-trans before (put-Touches pn u _),
      )
