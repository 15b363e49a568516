-- ===== src/Traceroute/Sharing.antt =====
-- Which probes of traceroute share a host name, on every path through the probing loop.
use nnos.Prelude.{
  ℕ, ◌/◌, ◌<◌, ◌≡◌, ◌≢◌, refl, Bool, true, some, List, [], ◌∷◌, arith, ℕ_discrete, ◌∙◌, ap, sym,
}
use nnos.Prelude.Int.{ℤ}
use mathlib.Core.Option.{some-injective}
use mathlib.Core.Path.{subst}
use nnos.Traceroute.Probe.{
  Addr, Name, heap, ProbeInfo, Tr, put, Turn, interrupted, unreadable, message, Cmsg, recverr,
  parse_icmp_response, parse_one_cmsg, parse_each_cmsg, parse_cmsg, set_final_probe,
  traceroute_receive, received,
}
use nnos.Traceroute.Hop.{Settings, Sending, send_probe, traceroute_send}
use nnos.Traceroute.Memory.{name_of}
use nnos.Traceroute.Release.{IsGrouped}

-- the host names and malloc's counter are as before
pub record SameNames (tr t : Tr) : Type 0 where
  pub names : (j : ℕ) → name_of t j ≡ name_of tr j
  pub counter : t.allocated ≡ tr.allocated

pub SameNames-refl : (tr : Tr) → SameNames tr tr
SameNames-refl tr = record { names = λ j. refl; counter = refl }

SameNames-trans : (r s t : Tr) → SameNames r s → SameNames s t → SameNames r t
SameNames-trans r s t p q = record {
  names = λ j. q.names j ∙ p.names j;
  counter = q.counter ∙ p.counter;
}

put_same :
    (tr : Tr) (pn : ℕ) (p : ProbeInfo)
    → p.recv_hostname ≡ name_of tr pn
    → SameNames tr (put tr pn p)
put_same tr pn p e = record {
  names = λ j. ground (arith, ap (name_of tr) {x = j} {y = pn});
  counter = refl;
}

pub send_same :
    (o : Settings) (pn : ℕ) (s : Sending) (tr : Tr) → SameNames tr (traceroute_send o pn s tr).1
unfolding traceroute_send send_probe
send_same o pn s tr = put_same tr pn (send_probe o pn s (tr.probes pn)).1 (ground arith)

final_same : (pn : ℕ) (tr : Tr) → SameNames tr (set_final_probe pn tr)
unfolding set_final_probe
final_same pn tr = record { names = λ j. ground arith; counter = ground arith }

response_same :
    (pn type code : ℕ) (info : ℤ) (tr : Tr)
    → SameNames tr (parse_icmp_response pn type code info tr)
unfolding parse_icmp_response set_final_probe
response_same pn type code info tr = record { names = λ j. ground arith; counter = ground arith }

cmsg_same : (pn : ℕ) (m : Cmsg) (tr : Tr) → SameNames tr (parse_one_cmsg pn m tr)
unfolding parse_one_cmsg
cmsg_same pn (recverr true a type code info) tr =
    let u = put tr pn (record (tr.probes pn) { recv_addr = a }) in
    SameNames-trans tr u (parse_icmp_response pn type code info u) (put_same tr pn _ refl)
      (response_same pn type code info u)
cmsg_same pn (Cmsg.timestamp n) tr = put_same tr pn _ refl
cmsg_same pn (Cmsg.ttl n) tr = put_same tr pn _ refl
cmsg_same pn m tr = SameNames-refl tr

cmsgs_same : (pn : ℕ) (ms : List Cmsg) (tr : Tr) → SameNames tr (parse_each_cmsg pn ms tr)
unfolding parse_each_cmsg
cmsgs_same pn [] tr = SameNames-refl tr
cmsgs_same pn (m ∷ ms) tr =
    SameNames-trans tr (parse_one_cmsg pn m tr) _ (cmsg_same pn m tr)
      (cmsgs_same pn ms (parse_one_cmsg pn m tr))

received_same :
    (pn : ℕ) (e : Bool) (a : Addr) (now : ℕ) (ms : List Cmsg) (tr : Tr)
    → SameNames tr (received pn e a now ms tr)
unfolding received parse_cmsg set_final_probe
received_same pn e a now ms tr =
    let s = cmsgs_same pn ms tr in
    record {
      names = λ j.
          ground (
            arith,
            s.names j,
            s.names pn,
            ap (name_of (parse_each_cmsg pn ms tr)) {x = j} {y = pn},
          );
      counter = ground (arith, s.counter);
    }

back_same : (tr : Tr) (q r : ℕ × Tr) → some q ≡ some r → SameNames tr q.1 → SameNames tr r.1
back_same tr q r e s = subst (λ (x : ℕ × Tr). SameNames tr x.1) (some-injective q r e) s

pub receive_same :
    (pn : ℕ) (ts : List Turn) (tr : Tr) (r : ℕ × Tr)
    → traceroute_receive pn ts tr ≡ some r
    → SameNames tr r.1
unfolding traceroute_receive
receive_same pn [] tr r h = cc
receive_same pn (interrupted ∷ ts) tr r h = receive_same pn ts tr r h
receive_same pn (unreadable ∷ ts) tr r h = receive_same pn ts tr r h
receive_same pn (message e a now ms ∷ ts) tr r h =
    back_same tr _ r h (received_same pn e a now ms tr)
receive_same pn (t ∷ ts) tr r h = back_same tr _ r h (SameNames-refl tr)

-- names from malloc are older than its counter, and are shared on one TTL level only
pub record IsShared (o : Settings) (tr : Tr) : Type 0 where
  pub old : (i a : ℕ) → name_of tr i ≡ heap a → a < tr.allocated
  pub grouped : IsGrouped o tr

pub same-IsShared : (o : Settings) (tr t : Tr) → SameNames tr t → IsShared o tr → IsShared o t
same-IsShared o tr t s v = record {
  old = λ i a h. rw s.counter (v.old i a (sym (s.names i) ∙ h));
  grouped = λ i j a h k. v.grouped i j a (sym (s.names i) ∙ h) (sym (s.names j) ∙ k);
}

-- a name that may be given to probe `pn`
abbrev pub Fits : Settings → ℕ → Tr → Name → Type 0
Fits o pn tr n =
    (a : ℕ)
    → n ≡ heap a
    → (a < tr.allocated)
      × ((j : ℕ) → j ≢ pn → name_of tr j ≡ heap a → j / o.per_ttl ≡ pn / o.per_ttl)

pub put-IsShared :
    (o : Settings) (pn : ℕ) (tr : Tr) (p : ProbeInfo)
    → IsShared o tr
    → Fits o pn tr p.recv_hostname
    → IsShared o (put tr pn p)
put-IsShared o pn tr p v fits = record {
  old = λ i a h. elim (ℕ_discrete i pn) [
    | yes e ↦ (fits a (at i e ∙ h)).0
    | no ne ↦ v.old i a (off i ne ∙ h)
  ];
  grouped = λ i j a h k. elim (ℕ_discrete i pn) [
    | yes e ↦ elim (ℕ_discrete j pn) [
      | yes f ↦ ap (λ x. x / o.per_ttl) (e ∙ sym f)
      | no nf ↦ ap (λ x. x / o.per_ttl) e ∙ sym ((fits a (at i e ∙ h)).1 j nf (off j nf ∙ k))
    ]
    | no ne ↦ elim (ℕ_discrete j pn) [
      | yes f ↦ (fits a (at j f ∙ k)).1 i ne (off i ne ∙ h) ∙ ap (λ x. x / o.per_ttl) (sym f)
      | no nf ↦ v.grouped i j a (off i ne ∙ h) (off j nf ∙ k)
    ]
  ];
}
  where
    at : (i : ℕ) → i ≡ pn → p.recv_hostname ≡ name_of (put tr pn p) i
    at i e = ground arith

    off : (i : ℕ) → i ≢ pn → name_of tr i ≡ name_of (put tr pn p) i
    off i ne = ground arith
