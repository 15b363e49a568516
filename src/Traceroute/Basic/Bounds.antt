-- ===== src/Traceroute/Basic/Bounds.antt =====
-- The options with which main of basic_traceroute calls do_traceroute.
use nnos.Prelude.{◌≡◌, inl, inr, List, [], ◌∷◌, done, Run-cases, arith}
use nnos.Prelude.Int.{ℤ, pos, ◌≤ℤ◌}
use nnos.Traceroute.Options.{Double}
use nnos.Traceroute.Basic.Options.{
  Options, default_options, Switch, parse_option, parse_each, set_port, arguments, read_arguments,
}

module _ (d : Double) where
  -- what the array of probes needs of the options, but for the first hop
  pub record Bounded (o : Options d) : Type 0 where
    pub ttl_bound : o.max_ttl ≤ℤ pos 255
    pub probes_low : pos 1 ≤ℤ o.probes
    pub probes_high : o.probes ≤ℤ pos 10

  parse_option-Bounded :
      (x : Switch d) (o p : Options d) → Bounded o → parse_option d x o ≡ done tt p → Bounded p
  unfolding parse_option
  parse_option-Bounded x o p v h = ground arith

  parse_each-Bounded :
      (xs : List (Switch d)) (o p : Options d)
      → Bounded o
      → parse_each d xs o ≡ done tt p
      → Bounded p
  unfolding parse_each
  parse_each-Bounded [] o p v h = ground arith
  parse_each-Bounded (x ∷ xs) o p v h = elim (Run-cases (parse_option d x o)) [
    | inl (_, m, e) ↦ parse_each-Bounded xs m p (parse_option-Bounded x o m v e) (ground arith)
    | inr (inl (c, m, e)) ↦ absurd (ground arith)
    | inr (inr e) ↦ absurd (ground arith)
  ]

  arguments-Bounded :
      (rest : List ℤ) (o p : Options d) → Bounded o → arguments d rest o ≡ done tt p → Bounded p
  unfolding arguments
  arguments-Bounded [] o p v h = absurd (ground arith)
  arguments-Bounded (_ ∷ []) o p v h = ground arith
  arguments-Bounded (_ ∷ n ∷ _) o p v h = ground arith

  pub read_arguments-Bounded :
      (xs : List (Switch d)) (rest : List ℤ) (p : Options d)
      → read_arguments d xs rest (default_options d) ≡ done tt p
      → Bounded p
  unfolding read_arguments
  read_arguments-Bounded xs rest p h = elim (Run-cases (parse_each d xs (default_options d))) [
    | inl (_, m, e) ↦
        let start : Bounded (default_options d) = record {
          ttl_bound = omega arith;
          probes_low = omega arith;
          probes_high = omega arith;
        } in
        let v = parse_each-Bounded xs (default_options d) m start e in
        let w : Bounded (set_port d m) = record {
          ttl_bound = v.ttl_bound;
          probes_low = v.probes_low;
          probes_high = v.probes_high;
        } in
        arguments-Bounded rest (set_port d m) p w (ground arith)
    | inr (inl (c, m, e)) ↦ absurd (ground arith)
    | inr (inr e) ↦ absurd (ground arith)
  ]
