-- ===== src/Traceroute/Loop.antt =====
-- The probing loop of do_traceroute: what it keeps, and that it ends.
use nnos.Prelude.{
  ℕ, zero, suc, ◌+◌, ◌-◌, ◌/◌, ◌%◌, ◌<◌, ◌≡◌, ◌≢◌, ◌⊎◌, inl, inr, refl, Option, none, some, List,
  [], ◌∷◌, arith, Bool-cases, Option-cases, ◌∙◌, done,
}
use mathlib.Core.Option.{some-injective}
use mathlib.Core.Path.{subst}
use native.Mathlib.Nat.{div-add-mod}
use nnos.Traceroute.Probe.{host_unknown_bad_af, heap, Tr, put, Turn, traceroute_receive}
use nnos.Traceroute.Hop.{
  Settings, Sending, traceroute_send, find_name, addr2str, named, timed_out, not_sent,
  after_receive, after_send, do_one_probe, probe_loop, print_exits, stops,
}
use nnos.Traceroute.Memory.{name_of}
use nnos.Traceroute.Sharing.{
  SameNames, same-IsShared, send_same, receive_same, IsShared, put-IsShared,
}

-- the probe before is on the same TTL level
level_before : (pn k : ℕ) → 0 < k → pn % k ≢ 0 → (pn - 1) / k ≡ pn / k
level_before pn k p ne = grind (arith, div-add-mod pn k, div-add-mod (pn - 1) k)

find_name_cases :
    (o : Settings) (pn : ℕ) (tr : Tr)
    → (find_name o pn tr ≡ (heap tr.allocated, record tr { allocated = tr.allocated + 1 }))
      ⊎ ((find_name o pn tr ≡ (host_unknown_bad_af, tr))
          ⊎ ((find_name o pn tr ≡ (name_of tr (pn - 1), tr)) × (pn % o.per_ttl ≢ 0)))
unfolding find_name addr2str
find_name_cases o pn tr = ground arith

counter-IsShared :
    (o : Settings) (tr : Tr)
    → IsShared o tr
    → IsShared o (record tr { allocated = tr.allocated + 1 })
counter-IsShared o tr v = record { old = λ i a h. omega (arith, v.old i a h); grouped = v.grouped }

module _ (o : Settings) (some_probes : 0 < o.per_ttl) where
  -- the name that an answered probe gets
  named-IsShared :
      (pn : ℕ) (tr : Tr)
      → IsShared o tr
      → IsShared o (
          put
            (find_name o pn tr).1
            pn
            (named (find_name o pn tr).0 ((find_name o pn tr).1.probes pn)))
  named-IsShared pn tr v = elim (find_name_cases o pn tr) [
    | inl new ↦
        let t = record tr { allocated = tr.allocated + 1 } in
        rw new (
          put-IsShared o pn t (named (heap tr.allocated) (t.probes pn)) (counter-IsShared o tr v)
            (λ a e. (ground arith, λ j ne h. absurd (ground (arith, v.old j a h)))))
    | inr (inl bad) ↦
        rw bad
          (put-IsShared o pn tr (named host_unknown_bad_af (tr.probes pn)) v (λ a e. absurd (cc)))
    | inr (inr (old, ne)) ↦ rw old (
        put-IsShared o pn tr (named (name_of tr (pn - 1)) (tr.probes pn)) v (λ a e. (
          v.old (pn - 1) a e,
          λ j _ h. v.grouped j (pn - 1) a h e ∙ level_before pn o.per_ttl some_probes ne,
        )))
  ]

  receive-IsShared :
      (pn : ℕ) (tr u : Tr) (r : Option (ℕ × Tr))
      → ((q : ℕ × Tr) → r ≡ some q → SameNames tr q.1)
      → IsShared o tr
      → after_receive o pn r ≡ some u
      → IsShared o u
  receive-IsShared pn tr u none same v h = absurd (cc)
  receive-IsShared pn tr u (some (zero, w)) same v h =
      subst (IsShared o) (some-injective _ u h)
        (named-IsShared pn w (same-IsShared o tr w (same (zero, w) refl) v))
  receive-IsShared pn tr u (some (suc code, w)) same v h =
      subst (IsShared o) (some-injective _ u h) (
        put-IsShared o pn w (timed_out (w.probes pn))
          (same-IsShared o tr w (same (suc code, w) refl) v) (λ a e. absurd (cc)))

  send-IsShared :
      (pn : ℕ) (ts : List Turn) (tr u : Tr) (r : ℕ × Tr)
      → SameNames tr r.1
      → IsShared o tr
      → after_send o pn ts r ≡ some u
      → IsShared o u
  send-IsShared pn ts tr u (zero, w) same v h =
      receive-IsShared pn w u (traceroute_receive pn ts w) (receive_same pn ts w)
        (same-IsShared o tr w same v) h
  send-IsShared pn ts tr u (suc code, w) same v h =
      let x = same-IsShared o tr w same v in
      subst (IsShared o) (some-injective _ u h) (
        put-IsShared o pn w (not_sent (w.probes pn)) x
          (λ a e. (x.old pn a e, λ j _ k. x.grouped j pn a k e)))

  -- do_one_probe keeps the sharing of the names on one TTL level.
  pub do_one_probe-IsShared :
      (pn : ℕ) (s : Sending) (ts : List Turn) (tr u : Tr)
      → IsShared o tr
      → do_one_probe o pn s ts tr ≡ some u
      → IsShared o u
  unfolding do_one_probe
  do_one_probe-IsShared pn s ts tr u v h =
      send-IsShared pn ts tr u (traceroute_send o pn s tr) (send_same o pn s tr) v h

  pub probe_loop-IsShared :
      (count pn : ℕ) (inputs : List (Sending × List Turn)) (tr u : Tr)
      → IsShared o tr
      → probe_loop o count pn inputs tr ≡ done tt u
      → IsShared o u
  unfolding probe_loop
  probe_loop-IsShared zero pn inputs tr u v h = subst (IsShared o) (let e : tr ≡ u = cc in e) v
  probe_loop-IsShared (suc count) pn [] tr u v h = absurd (cc)
  probe_loop-IsShared (suc count) pn ((s, ts) ∷ inputs) tr u v h =
      elim (Option-cases (do_one_probe o pn s ts tr)) [
        | inl e ↦ absurd (ground arith)
        | inr (t, e) ↦
            let w = do_one_probe-IsShared pn s ts tr t v e in
            elim (Bool-cases (print_exits (t.probes pn).probe_result)) [
              | inl x ↦ absurd (ground arith)
              | inr x ↦ elim (Bool-cases (stops o pn t)) [
                | inl y ↦ subst (IsShared o) (let q : t ≡ u = ground arith in q) w
                | inr y ↦ probe_loop-IsShared count (suc pn) inputs t u w (ground arith)
              ]
            ]
      ]
