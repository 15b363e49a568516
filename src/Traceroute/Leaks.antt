-- ===== src/Traceroute/Leaks.antt =====
-- Which host names traceroute_free_mem_probe passes to free.
use nnos.Prelude.{
  ℕ, zero, suc, ◌+◌, ◌*◌, ◌/◌, ◌≤◌, ◌<◌, ◌≡◌, ◌≢◌, inl, inr, refl, Bool, true, false, List, [], ◌∷◌,
  ◌++◌, ◌||◌, arith, Bool-cases, ℕ_discrete, ◌∙◌, ap, sym, dec_lt,
}
use nnos.Prelude.Int.{pos}
use nnos.Traceroute.Probe.{Name, host_unknown, Tr}
use nnos.Traceroute.Hop.{Settings, is_null}
use nnos.Traceroute.Memory.{
  same_name, name_of, used_elsewhere, traceroute_free_mem_probe, free_probes, free_names,
  free_until,
}
use nnos.Traceroute.Release.{used_elsewhere_some, same_name_eq, same_name_refl}

abbrev pub contains : Name → List Name → Bool
contains n [] = false
contains n (m ∷ ms) = same_name n m || contains n ms

-- neither NULL nor the static "*", the two names that the release knows not to free
abbrev pub IsFreeable : Name → Type 0
IsFreeable n = (is_null n ≡ false) × (same_name n host_unknown ≡ false)

contains_append :
    (n : Name) (xs ys : List Name) → contains n ys ≡ true → contains n (xs ++ ys) ≡ true
contains_append n [] ys h = h
contains_append n (x ∷ xs) ys h = ground (arith, contains_append n xs ys h)

module _ (o : Settings) where
  name_of-free_other :
      (pn i : ℕ) (tr : Tr) → i ≢ pn → name_of (traceroute_free_mem_probe o pn tr).1 i ≡ name_of tr i
  unfolding traceroute_free_mem_probe
  name_of-free_other pn i tr ne = ground arith

  name_of-free :
      (pn : ℕ) (n : Name) (tr : Tr)
      → IsFreeable n
      → name_of (traceroute_free_mem_probe o pn tr).1 pn ≢ n
  unfolding traceroute_free_mem_probe
  name_of-free pn n tr f h = ground arith

  free_alone :
      (pn : ℕ) (n : Name) (tr : Tr)
      → IsFreeable n
      → name_of tr pn ≡ n
      → used_elsewhere o.per_ttl (pn / o.per_ttl * o.per_ttl) pn tr ≡ false
      → (traceroute_free_mem_probe o pn tr).0 ≡ n ∷ []
  unfolding traceroute_free_mem_probe
  free_alone pn n tr f held alone = ground arith

  free_probes_all :
      (count pn j : ℕ) (n : Name) (tr : Tr)
      → IsFreeable n
      → pn ≤ j
      → j < pn + count
      → name_of tr j ≡ n
      → ((i : ℕ) → i < pn → name_of tr i ≢ n)
      → ((i : ℕ) → pn + count ≤ i → name_of tr i ≢ n)
      → contains n (free_probes o count pn tr).0 ≡ true
  unfolding free_probes
  free_probes_all zero pn j n tr f low high held before after = absurd (omega arith)
  free_probes_all (suc count) pn j n tr f low high held before after =
      let again = λ (i : ℕ) (a : suc pn ≤ i) (b : i < suc pn + count) (q : name_of t i ≡ n).
        free_probes_all count (suc pn) i n t f a b q before' after' in
      elim (Bool-cases (same_name (name_of tr pn) n)) [
        | inl here ↦
            let e = same_name_eq (name_of tr pn) n here in
            elim (Bool-cases (used_elsewhere o.per_ttl (pn / o.per_ttl * o.per_ttl) pn tr)) [
              | inl shared ↦
                  let (i, ne, same) = used_elsewhere_some _ _ pn tr shared in
                  rest again i ne (same_name_eq (name_of tr i) (name_of tr pn) same ∙ e)
              | inr alone ↦ rw (free_alone pn n tr f e alone, same_name_refl n) refl
            ]
        | inr other ↦
            rest again j
              (λ e.
                let bad : false ≡ true =
                  sym other
                  ∙ ap (λ x. same_name (name_of tr x) n) (sym e)
                  ∙ ap (λ x. same_name x n) held
                  ∙ same_name_refl n in
                cc)
              held
      ]
    where
      t : Tr
      t = (traceroute_free_mem_probe o pn tr).1

      before' : (i : ℕ) → i < suc pn → name_of t i ≢ n
      before' i lt h = elim (ℕ_discrete i pn) [
        | yes e ↦ name_of-free pn n tr f (ap (name_of t) (sym e) ∙ h)
        | no ne ↦ before i (omega (arith, ne)) (sym (name_of-free_other pn i tr ne) ∙ h)
      ]

      after' : (i : ℕ) → suc pn + count ≤ i → name_of t i ≢ n
      after' i le h =
          after i (omega arith) (sym (name_of-free_other pn i tr (λ e. absurd (omega arith))) ∙ h)

      rest :
          ((i : ℕ)
            → suc pn ≤ i
            → i < suc pn + count
            → name_of t i ≡ n
            → contains n (free_probes o count (suc pn) t).0 ≡ true)
          → (i : ℕ) → i ≢ pn
          → name_of tr i ≡ n
          → contains n ((traceroute_free_mem_probe o pn tr).0 ++ (free_probes o count (suc pn) t).0)
            ≡ true
      rest again i ne q =
          contains_append n (traceroute_free_mem_probe o pn tr).0 (free_probes o count (suc pn) t).0
            (again i above below (name_of-free_other pn i tr ne ∙ q))
        where
          above : suc pn ≤ i
          above = elim (dec_lt i pn) [
            | yes lt ↦ absurd (before i lt q)
            | no ge ↦ omega (arith, ge, ne)
          ]

          below : i < suc pn + count
          below = elim (dec_lt i (suc pn + count)) [
            | yes lt ↦ lt
            | no ge ↦ absurd (after i (omega (arith, ge)) q)
          ]

  -- Where a final probe has been set, every name but NULL and "*" that some probe up to it holds,
  -- and none after it, is passed to free.
  pub free_names_all :
      (final j : ℕ) (n : Name) (tr : Tr)
      → IsFreeable n
      → tr.final_probe ≡ pos final
      → j ≤ final
      → name_of tr j ≡ n
      → ((i : ℕ) → final < i → name_of tr i ≢ n)
      → contains n (free_names o tr).0 ≡ true
  unfolding free_names
  free_names_all final j n tr f e le held after = rw (ap (λ x. free_until o x tr) e) (
      free_probes_all (suc final) 0 j n tr f (omega arith) (omega arith) held
        (λ i lt. absurd (omega arith)) (λ i le. after i (omega arith)))
