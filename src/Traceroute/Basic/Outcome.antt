-- ===== src/Traceroute/Basic/Outcome.antt =====
-- do_traceroute of basic_traceroute, on every path through its two loops.
use nnos.Prelude.{
  ℕ, zero, suc, ◌+◌, ◌*◌, ◌≤◌, ◌<◌, ◌≡◌, ◌≢◌, ◌⊎◌, inl, inr, refl, Bool, true, some, arith, ◌∙◌,
  sym, ℕ_discrete, ap,
}
use nnos.Prelude.Int.{ℤ, pos, negsuc, ◌+ℤ◌, ◌-ℤ◌, ◌*ℤ◌}
use mathlib.Core.Path.{subst}
use native.Mathlib.Nat.{mul-le-mul}
use nnos.Traceroute.Outcome.{some_decides}
use nnos.Traceroute.Basic.Probe.{Tr, Settings, NameInfo, zero_probe}
use nnos.Traceroute.Basic.Run.{
  Trace, goes, returns, outside, waits, Replies, in_array, one_probe, probe_at, index, hop_loop,
}
use nnos.Traceroute.Basic.Frame.{Touches, Probed, one_probe-Probed, send_code}

-- The probes from `low` to before `next` have been made and their sockets closed; the others are as
-- traceroute_init left them.
pub record Progress (low next : ℕ) (tr : Tr) : Type 0 where
  pub shut : (j : ℕ) → low ≤ j → j < next → (tr.probes j).socket ≡ negsuc 0
  pub below : (j : ℕ) → j < low → tr.probes j ≡ zero_probe
  pub above : (j : ℕ) → next ≤ j → tr.probes j ≡ zero_probe

-- the final probe is not set, or is one from `low` to before `next`
abbrev pub FinalIn : (low next : ℕ) → Tr → Type 0
FinalIn low next tr =
    (tr.final_probe ≡ negsuc 0) ⊎ ((f : ℕ) × (tr.final_probe ≡ pos f) × (low ≤ f) × (f < next))

Touches-Progress :
    {low next : ℕ} {tr t : Tr}
    → low ≤ next
    → Touches next tr t
    → (t.probes next).socket ≡ negsuc 0
    → Progress low next tr
    → Progress low (suc next) t
Touches-Progress {next = next} {t = t} le step shut v = record {
  shut = λ j a b. elim (ℕ_discrete j next) [
    | yes e ↦ ap (λ i. (t.probes i).socket) e ∙ shut
    | no ne ↦ ap (λ p. p.socket) (step.others j ne) ∙ v.shut j a (omega (arith, ne))
  ];
  below = λ j a. step.others j (λ e. absurd (omega arith)) ∙ v.below j a;
  above = λ j a. step.others j (λ e. absurd (omega arith)) ∙ v.above j (omega arith);
}

Touches-FinalIn :
    {low next : ℕ} {tr t : Tr}
    → low ≤ next
    → Touches next tr t
    → FinalIn low next tr
    → FinalIn low (suc next) t
Touches-FinalIn {next = next} {tr = tr} {t = t} le step (inl unset) = elim step.final [
  | inl same ↦ inl (same ∙ unset)
  | inr new ↦ inr (next, new, le, omega arith)
]
Touches-FinalIn {next = next} le step (inr (f, e, a, b)) = elim step.final [
  | inl same ↦ inr (f, same ∙ e, a, omega (arith, b))
  | inr new ↦ inr (next, new, le, omega arith)
]

-- pn = (ttl-1)*probes + probe stays in the array
index-in_array :
    (k h probe : ℕ)
    → k ≤ 10
    → h < 255
    → probe < k
    → in_array (index (pos k) (pos (suc h)) probe) ≡ some (h * k + probe)
unfolding index ◌*ℤ◌ ◌+ℤ◌ ◌-ℤ◌
index-in_array k h probe few near lt =
    let le : h * k ≤ 254 * 10 = mul-le-mul {n₂ = 254} (omega arith) few in ground arith

-- the run of one hop, of ttl h + 1 and from `probe` on, whose first probe is h * k
abbrev pub HopEnd : Settings → Replies → (low k h : ℕ) → Trace (Unit {0}) → Type 0
HopEnd o replies low k h (goes _ t) = Progress low (h * k + k) t × FinalIn (h * k) (h * k + k) t
HopEnd o replies low k h (returns c t) =
    (c ≡ 3) × ((pn : ℕ) × (low ≤ pn) × (send_code o replies pn ≢ 0) × Progress low (suc pn) t)
HopEnd o replies low k h (outside i t) = ⊥
HopEnd o replies low k h waits = ⊥

module _ (o : Settings) (n : NameInfo) (replies : Replies)
    (decides : (pn : ℕ) → some_decides (replies pn).1 ≡ true) where
  probe_at_inside :
      (i : ℤ) (pn : ℕ) (printed : Bool) (tr : Tr)
      → in_array i ≡ some pn
      → probe_at o n replies i printed tr ≡ one_probe o n replies pn printed tr
  unfolding probe_at
  probe_at_inside i pn printed tr e = rw (probe_at, e) refl

  probe_at-Probed :
      (k h probe : ℕ) (printed : Bool) (tr : Tr)
      → k ≤ 10
      → h < 255
      → probe < k
      → Probed o replies
          (h * k + probe)
          tr
          (probe_at o n replies (index (pos k) (pos (suc h)) probe) printed tr)
  probe_at-Probed k h probe printed tr few near lt =
      subst (Probed o replies (h * k + probe) tr)
        (sym (probe_at_inside _ (h * k + probe) printed tr (index-in_array k h probe few near lt)))
        (one_probe-Probed o n replies (h * k + probe) printed tr (decides _))

  pub hop_loop-HopEnd :
      (low k h count probe : ℕ) (printed : Bool) (tr : Tr)
      → k ≤ 10
      → h < 255
      → count + probe ≡ k
      → low ≤ h * k
      → Progress low (h * k + probe) tr
      → FinalIn (h * k) (h * k + probe) tr
      → HopEnd o replies low k h (hop_loop o n replies (pos k) (pos (suc h)) count probe printed tr)
  unfolding hop_loop
  hop_loop-HopEnd low k h zero probe printed tr few near all le v f = ground (arith, v, f)
  hop_loop-HopEnd low k h (suc count) probe printed tr few near all le v f =
      go (probe_at o n replies (index (pos k) (pos (suc h)) probe) printed tr)
        (probe_at-Probed k h probe printed tr few near (omega arith))
        (λ p t. hop_loop-HopEnd low k h count (suc probe) p t few near (omega arith) le)
    where
      go :
          (r : Trace Bool)
          → Probed o replies (h * k + probe) tr r
          → ((p : Bool) (t : Tr)
              → Progress low (h * k + suc probe) t
              → FinalIn (h * k) (h * k + suc probe) t
              → HopEnd o replies low k h
                  (hop_loop o n replies (pos k) (pos (suc h)) count (suc probe) p t))
          → HopEnd o replies low k h (elim r [
            | goes printed' t ↦
                hop_loop o n replies (pos k) (pos (suc h)) count (suc probe) printed' t
            | returns c t ↦ returns c t
            | outside i t ↦ outside i t
            | waits ↦ waits
          ])
      go (goes p t) (sent, shut, step) again =
          again p t (ground (arith, Touches-Progress (omega arith) step shut v))
            (ground (arith, Touches-FinalIn (omega arith) step f))
      go (returns c t) (e, failed, shut, step) again =
          (e, (h * k + probe, omega arith, failed, Touches-Progress (omega arith) step shut v))
      go (outside i t) bad again = bad
      go waits bad again = bad
