-- ===== src/Traceroute/Outcome.antt =====
-- What do_one_probe leaves behind, on every path through it.
use nnos.Prelude.{
  ℕ, zero, suc, ◌≡◌, ◌≢◌, ◌⊎◌, inl, inr, refl, Bool, true, false, some, List, [], ◌∷◌, ◌∙◌, ap,
  ◌||◌, arith,
}
use nnos.Prelude.Int.{ℤ, negsuc}
use nnos.Traceroute.Probe.{
  Addr, Name, null, host_unknown, blank, probe_ok, err_send, err_recv, err_timeout, ProbeInfo, Tr,
  put, write, Turn, expired, interrupted, poll_failed, silent, neither, unreadable, message, Cmsg,
  recverr, parse_icmp_response, parse_one_cmsg, parse_each_cmsg, parse_cmsg, set_final_probe,
  traceroute_receive, received,
}
use nnos.Traceroute.Hop.{
  Settings, Sending, do_one_probe, traceroute_send, find_name, addr2str, named, timed_out, not_sent,
  after_receive, after_send,
}

write_self : (f : ℕ → ProbeInfo) (i : ℕ) (p : ProbeInfo) → write f i p i ≡ p
write_self f i p = ground arith

find_name_lem : (o : Settings) (pn : ℕ) (tr : Tr) → (find_name o pn tr).0 ≢ null
unfolding find_name addr2str
find_name_lem o pn tr h = ground arith

find_name_probes : (o : Settings) (pn : ℕ) (tr : Tr) → (find_name o pn tr).1.probes ≡ tr.probes
unfolding find_name addr2str
find_name_probes o pn tr = ground arith

-- `t` differs from `tr` in probe `pn` only
abbrev pub Frame : ℕ → Tr → Tr → Type 0
Frame pn tr t = (j : ℕ) → j ≢ pn → t.probes j ≡ tr.probes j

-- what is true of a probe after do_one_probe
abbrev pub Settled : ProbeInfo → Type 0
Settled p =
    (p.socket ≡ negsuc 0)
    × ((p.probe_result ≡ err_send)
        ⊎ (((p.probe_result ≡ err_timeout) × (p.recv_hostname ≡ host_unknown))
            ⊎ (((p.probe_result ≡ probe_ok) × (p.err_str ≡ blank) × (p.recv_hostname ≢ null))
                ⊎ ((p.probe_result ≡ err_recv) × (p.err_str ≢ blank) × (p.recv_hostname ≢ null)))))

-- a turn that ends the loop of traceroute_receive
abbrev decides : Turn → Bool
decides interrupted = false
decides unreadable = false
decides _ = true

unfoldable pub some_decides : List Turn → Bool
some_decides [] = false
some_decides (t ∷ ts) = decides t || some_decides ts

put-Frame : (pn : ℕ) (tr : Tr) (p : ProbeInfo) → Frame pn tr (put tr pn p)
put-Frame pn tr p j ne = ground arith

set_final_probe_probes : (pn : ℕ) (tr : Tr) → (set_final_probe pn tr).probes ≡ tr.probes
unfolding set_final_probe
set_final_probe_probes pn tr = ground arith

parse_icmp_response-Frame :
    (pn type code : ℕ) (info : ℤ) (tr : Tr) → Frame pn tr (parse_icmp_response pn type code info tr)
unfolding parse_icmp_response set_final_probe
parse_icmp_response-Frame pn type code info tr j ne = ground arith

parse_one_cmsg-Frame : (pn : ℕ) (m : Cmsg) (tr : Tr) → Frame pn tr (parse_one_cmsg pn m tr)
unfolding parse_one_cmsg
parse_one_cmsg-Frame pn (recverr true a type code info) tr j ne =
    let u = put tr pn (record (tr.probes pn) { recv_addr = a }) in
    parse_icmp_response-Frame pn type code info u j ne ∙ put-Frame pn tr _ j ne
parse_one_cmsg-Frame pn m tr j ne = ground arith

parse_each_cmsg-Frame : (pn : ℕ) (ms : List Cmsg) (tr : Tr) → Frame pn tr (parse_each_cmsg pn ms tr)
unfolding parse_each_cmsg
parse_each_cmsg-Frame pn [] tr j ne = refl
parse_each_cmsg-Frame pn (m ∷ ms) tr j ne =
    parse_each_cmsg-Frame pn ms (parse_one_cmsg pn m tr) j ne ∙ parse_one_cmsg-Frame pn m tr j ne

received-Frame :
    (pn : ℕ) (e : Bool) (a : Addr) (now : ℕ) (ms : List Cmsg) (tr : Tr)
    → Frame pn tr (received pn e a now ms tr)
unfolding received parse_cmsg set_final_probe
received-Frame pn e a now ms tr j ne = ground (arith, parse_each_cmsg-Frame pn ms tr j ne)

received-closed :
    (pn : ℕ) (e : Bool) (a : Addr) (now : ℕ) (ms : List Cmsg) (tr : Tr)
    → ((received pn e a now ms tr).probes pn).socket ≡ negsuc 0
unfolding received
received-closed pn e a now ms tr = ground arith

-- traceroute_receive closes the socket or leaves everything as it was.
abbrev Received : ℕ → Tr → ℕ × Tr → Type 0
Received pn tr (zero, t) = ((t.probes pn).socket ≡ negsuc 0) × Frame pn tr t
Received pn tr (suc code, t) = t ≡ tr

receive-Received :
    (pn : ℕ) (ts : List Turn) (tr : Tr)
    → some_decides ts ≡ true
    → (r : ℕ × Tr) × (traceroute_receive pn ts tr ≡ some r) × Received pn tr r
unfolding traceroute_receive some_decides
receive-Received pn [] tr h = cc
receive-Received pn (expired ∷ ts) tr h = ((1, tr), refl, refl)
receive-Received pn (interrupted ∷ ts) tr h = receive-Received pn ts tr h
receive-Received pn (poll_failed ∷ ts) tr h = ((3, tr), refl, refl)
receive-Received pn (silent ∷ ts) tr h = ((2, tr), refl, refl)
receive-Received pn (neither ∷ ts) tr h = ((4, tr), refl, refl)
receive-Received pn (unreadable ∷ ts) tr h = receive-Received pn ts tr h
receive-Received pn (message e a now ms ∷ ts) tr h = (
  (0, received pn e a now ms tr),
  refl,
  (received-closed pn e a now ms tr, received-Frame pn e a now ms tr),
)

answered-Settled : (p : ProbeInfo) (n : Name) → p.socket ≡ negsuc 0 → n ≢ null → Settled (named n p)
answered-Settled p n c h = ground arith

after_receive-Settled :
    (o : Settings) (pn : ℕ) (tr : Tr) (r : ℕ × Tr)
    → Received pn tr r
    → (t : Tr) × (after_receive o pn (some r) ≡ some t) × Settled (t.probes pn) × Frame pn tr t
after_receive-Settled o pn tr (zero, u) (closed, frame) =
    let (n, w) = find_name o pn u in
    let same : w.probes ≡ u.probes = find_name_probes o pn u in
    (
      put w pn (named n (w.probes pn)),
      refl,
      rw (write_self w.probes pn (named n (w.probes pn)))
          (answered-Settled (w.probes pn) n (ground (arith, same, closed)) (find_name_lem o pn u)),
      λ j ne. put-Frame pn w (named n (w.probes pn)) j ne ∙ ap (λ f. f j) same ∙ frame j ne,
    )
after_receive-Settled o pn tr (suc code, u) same = (
  put u pn (timed_out (u.probes pn)),
  refl,
  rw (write_self u.probes pn (timed_out (u.probes pn))) (refl, inr (inl (refl, refl))),
  λ j ne. put-Frame pn u (timed_out (u.probes pn)) j ne ∙ ap (λ x. x.probes j) same,
)

send-Frame :
    (o : Settings) (pn : ℕ) (s : Sending) (tr : Tr) → Frame pn tr (traceroute_send o pn s tr).1
unfolding traceroute_send
send-Frame o pn s tr j ne = put-Frame pn tr _ j ne

-- If one of the turns of poll and recvmsg ends the wait, do_one_probe returns. Then the socket is
-- closed whatever failed, the result is one of four: not sent, timed out with the name "*", answered
-- without an error text, or answered with one, and an answered probe has a name to print; and no
-- other probe has changed.
pub do_one_probe-Settled :
    (o : Settings) (pn : ℕ) (s : Sending) (ts : List Turn) (tr : Tr)
    → some_decides ts ≡ true
    → (t : Tr) × (do_one_probe o pn s ts tr ≡ some t) × Settled (t.probes pn) × Frame pn tr t
unfolding do_one_probe
do_one_probe-Settled o pn s ts tr h = go (traceroute_send o pn s tr) (send-Frame o pn s tr)
  where
    go :
        (r : ℕ × Tr)
        → Frame pn tr r.1
        → (t : Tr) × (after_send o pn ts r ≡ some t) × Settled (t.probes pn) × Frame pn tr t
    go (suc code, u) frame = (
      put u pn (not_sent (u.probes pn)),
      refl,
      rw (write_self u.probes pn (not_sent (u.probes pn))) (refl, inl refl),
      λ j ne. put-Frame pn u (not_sent (u.probes pn)) j ne ∙ frame j ne,
    )
    go (zero, u) frame =
        let (r, back, kept) = receive-Received pn ts u h in
        let (t, e, settled, frame') = after_receive-Settled o pn u r kept in
        (t, rw back e, settled, λ j ne. frame' j ne ∙ frame j ne)
