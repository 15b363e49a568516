-- ===== src/Traceroute/Release.antt =====
-- traceroute_free_mem_probe over an array in which only probes of one TTL share a host name.
use nnos.Prelude.{
  ℕ, zero, suc, ◌+◌, ◌*◌, ◌/◌, ◌≤◌, ◌<◌, ◌≡◌, ◌≢◌, ◌⊎◌, inl, inr, refl, true, false, List, [], ◌∷◌,
  ◌++◌, not, ◌&&◌, ◌==◌, arith, Bool-cases, ℕ_discrete, if◌then◌else◌, ◌∙◌, ap, sym,
}
use native.Mathlib.Nat.{div-add-mod, mod-lt, mul_comm}
use nnos.Traceroute.Probe.{Name, null, host_unknown, host_unknown_bad_af, heap, Tr}
use nnos.Traceroute.Hop.{Settings}
use nnos.Traceroute.Memory.{
  same_name, name_of, used_elsewhere, traceroute_free_mem_probe, free_probes,
}

-- how often a string from malloc is in a list of freed names
abbrev pub times : ℕ → List Name → ℕ
times a [] = 0
times a (n ∷ ns) = (if same_name n (heap a) then 1 else 0) + times a ns

-- Probes with one name from malloc stand on one TTL level.
abbrev pub IsGrouped : Settings → Tr → Type 0
IsGrouped o tr =
    (i j a : ℕ) → name_of tr i ≡ heap a → name_of tr j ≡ heap a → i / o.per_ttl ≡ j / o.per_ttl

abbrev pub Unheld : ℕ → Tr → Type 0
Unheld a tr = (j : ℕ) → name_of tr j ≢ heap a

pub same_name_refl : (n : Name) → same_name n n ≡ true
same_name_refl null = refl
same_name_refl host_unknown = refl
same_name_refl host_unknown_bad_af = refl
same_name_refl (heap a) = ground arith

pub same_name_eq : (m n : Name) → same_name m n ≡ true → m ≡ n
same_name_eq null n h = ground arith
same_name_eq host_unknown n h = ground arith
same_name_eq host_unknown_bad_af n h = ground arith
same_name_eq (heap a) n h = ground arith

same_name_comm : (m n : Name) → same_name m n ≡ same_name n m
same_name_comm null n = ground arith
same_name_comm host_unknown n = ground arith
same_name_comm host_unknown_bad_af n = ground arith
same_name_comm (heap a) n = ground arith

-- a probe that holds the same name is found
used_elsewhere-true :
    (count i pn j : ℕ) (tr : Tr)
    → i ≤ j
    → j < i + count
    → j ≢ pn
    → same_name (name_of tr j) (name_of tr pn) ≡ true
    → used_elsewhere count i pn tr ≡ true
unfolding used_elsewhere
used_elsewhere-true zero i pn j tr low high ne same = absurd (omega arith)
used_elsewhere-true (suc count) i pn j tr low high ne same = elim (ℕ_discrete i j) [
  | yes here ↦ ground (arith, ap (name_of tr) here)
  | no later ↦ ground (
    arith,
    used_elsewhere-true count (suc i) pn j tr (omega (arith, later)) (omega arith) ne same,
  )
]

pub used_elsewhere_some :
    (count i pn : ℕ) (tr : Tr)
    → used_elsewhere count i pn tr ≡ true
    → (j : ℕ) × (j ≢ pn) × (same_name (name_of tr j) (name_of tr pn) ≡ true)
unfolding used_elsewhere
used_elsewhere_some zero i pn tr h = cc
used_elsewhere_some (suc count) i pn tr h =
    elim (Bool-cases (not (i == pn) && same_name (name_of tr i) (name_of tr pn))) [
      | inl here ↦ (i, ground arith, ground arith)
      | inr later ↦ used_elsewhere_some count (suc i) pn tr (ground arith)
    ]

times-append : (a : ℕ) (xs ys : List Name) → times a (xs ++ ys) ≡ times a xs + times a ys
times-append a [] ys = omega arith
times-append a (x ∷ xs) ys = omega (arith, times-append a xs ys)

level_bounds : (i j k : ℕ) → 0 < k → j / k ≡ i / k → (i / k * k ≤ j) × (j < i / k * k + k)
level_bounds i j k p e = rw (← e) (omega (arith, div-add-mod j k, mod-lt j p, mul_comm (j / k) k))

module _ (o : Settings) (some_probes : 0 < o.per_ttl) where
  free_probe_keeps :
      (pn j a : ℕ) (tr : Tr)
      → name_of (traceroute_free_mem_probe o pn tr).1 j ≡ heap a
      → name_of tr j ≡ heap a
  unfolding traceroute_free_mem_probe
  free_probe_keeps pn j a tr h = ground arith

  free_probe_times :
      (pn a : ℕ) (tr : Tr)
      → (times a (traceroute_free_mem_probe o pn tr).0 ≡ 0)
        ⊎ ((times a (traceroute_free_mem_probe o pn tr).0 ≡ 1)
            × (name_of tr pn ≡ heap a)
            × (used_elsewhere o.per_ttl (pn / o.per_ttl * o.per_ttl) pn tr ≡ false)
            × (name_of (traceroute_free_mem_probe o pn tr).1 pn ≡ null))
  unfolding traceroute_free_mem_probe
  free_probe_times pn a tr = ground arith

  free_probe-Unheld :
      (pn a : ℕ) (tr : Tr)
      → IsGrouped o tr
      → name_of tr pn ≡ heap a
      → used_elsewhere o.per_ttl (pn / o.per_ttl * o.per_ttl) pn tr ≡ false
      → name_of (traceroute_free_mem_probe o pn tr).1 pn ≡ null
      → Unheld a (traceroute_free_mem_probe o pn tr).1
  free_probe-Unheld pn a tr grouped held alone gone j h = elim (ℕ_discrete j pn) [
    | yes here ↦
        (let e : null ≡ heap a =
            sym gone ∙ ap (name_of (traceroute_free_mem_probe o pn tr).1) (sym here) ∙ h in
          cc)
    | no other ↦
        let before = free_probe_keeps pn j a tr h in
        let (low, high) = level_bounds pn j o.per_ttl some_probes (grouped j pn a before held) in
        let same : same_name (name_of tr j) (name_of tr pn) ≡ true =
          rw (before, held) (same_name_refl (heap a)) in
        let found =
          used_elsewhere-true o.per_ttl (pn / o.per_ttl * o.per_ttl) pn j tr low high other same in
        (let e : true ≡ false = sym found ∙ alone in cc)
  ]

  free_probe-IsGrouped :
      (pn : ℕ) (tr : Tr) → IsGrouped o tr → IsGrouped o (traceroute_free_mem_probe o pn tr).1
  free_probe-IsGrouped pn tr grouped i j a h k =
      grouped i j a (free_probe_keeps pn i a tr h) (free_probe_keeps pn j a tr k)

  free_probes-Unheld :
      (count pn a : ℕ) (tr : Tr)
      → Unheld a tr
      → (times a (free_probes o count pn tr).0 ≡ 0) × Unheld a (free_probes o count pn tr).1
  unfolding free_probes
  free_probes-Unheld zero pn a tr none = (refl, none)
  free_probes-Unheld (suc count) pn a tr none =
      let t = (traceroute_free_mem_probe o pn tr).1 in
      let none' : Unheld a t = λ j h. none j (free_probe_keeps pn j a tr h) in
      let (zero_later, after) = free_probes-Unheld count (suc pn) a t none' in
      elim (free_probe_times pn a tr) [
        | inl zero_now ↦ (
          omega (
            arith,
            times-append a (traceroute_free_mem_probe o pn tr).0 (free_probes o count (suc pn) t).0,
            zero_now,
            zero_later,
          ),
          after,
        )
        | inr (_, held, _, _) ↦ absurd (none pn held)
      ]

  -- a string from malloc is freed once, and then no probe holds it, or not at all
  pub free_probes_once :
      (count pn a : ℕ) (tr : Tr)
      → IsGrouped o tr
      → (times a (free_probes o count pn tr).0 ≡ 0)
        ⊎ ((times a (free_probes o count pn tr).0 ≡ 1) × Unheld a (free_probes o count pn tr).1)
  unfolding free_probes
  free_probes_once zero pn a tr grouped = inl refl
  free_probes_once (suc count) pn a tr grouped =
      let now = (traceroute_free_mem_probe o pn tr).0 in
      let t = (traceroute_free_mem_probe o pn tr).1 in
      let later = (free_probes o count (suc pn) t).0 in
      let both = times-append a now later in
      elim (free_probe_times pn a tr) [
        | inl zero_now ↦
            elim (free_probes_once count (suc pn) a t (free_probe-IsGrouped pn tr grouped)) [
              | inl zero_later ↦ inl (omega (arith, both, zero_now, zero_later))
              | inr (one, unheld) ↦ inr (omega (arith, both, zero_now, one), unheld)
            ]
        | inr (one, held, alone, gone) ↦
            let (zero_later, after) =
              free_probes-Unheld count (suc pn) a t
                (free_probe-Unheld pn a tr grouped held alone gone) in
            inr (omega (arith, both, one, zero_later), after)
      ]
