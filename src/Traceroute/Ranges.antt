-- ===== src/Traceroute/Ranges.antt =====
-- The options of traceroute as the rest of the program may rely on them.
use nnos.Prelude.{◌≤◌, ◌<◌, ◌≡◌, inl, inr, false, List, [], ◌∷◌, done, Run-cases, arith}
use nnos.Prelude.Int.{ℤ, pos, ◌≤ℤ◌}
use nnos.Traceroute.Options.{
  Double, Options, default_options, Switch, opt_w, parse_option, parse_each, parse_options,
  arguments, read_arguments, clamp_timeout, max_ttl_limit, max_probes, max_dest_port,
  max_packet_len, set_port,
}

-- the order of the three constants
pub record DoubleOrder (d : Double) : Type 0 where
  pub zero_zero : d.lt d.zero_s d.zero_s ≡ false
  pub def_zero : d.lt d.def_timeout d.zero_s ≡ false
  pub max_zero : d.lt d.max_timeout d.zero_s ≡ false
  pub max_def : d.lt d.max_timeout d.def_timeout ≡ false
  pub max_max : d.lt d.max_timeout d.max_timeout ≡ false

module _ (d : Double) where
  -- the options as the rest of the program may rely on them
  pub record InRange (o : Options d) : Type 0 where
    pub ttl_bound : o.max_ttl ≤ℤ max_ttl_limit
    pub probes_low : pos 1 ≤ℤ o.probes
    pub probes_high : o.probes ≤ℤ max_probes
    pub port_bound : o.dest_port ≤ max_dest_port
    pub length_bound : o.packet_len ≤ max_packet_len
    pub not_negative : d.lt o.timeout d.zero_s ≡ false
    pub not_long : d.lt d.max_timeout o.timeout ≡ false

  module _ (order : DoubleOrder d) where
    clamp_timeout_lem :
        (t : d.Value)
        → (d.lt (clamp_timeout d t) d.zero_s ≡ false)
          × (d.lt d.max_timeout (clamp_timeout d t) ≡ false)
    clamp_timeout_lem t = ground (arith, order.zero_zero, order.max_zero, order.max_max)

    default-InRange : InRange (default_options d)
    default-InRange = record {
      ttl_bound = omega arith;
      probes_low = omega arith;
      probes_high = omega arith;
      port_bound = omega arith;
      length_bound = omega arith;
      not_negative = order.def_zero;
      not_long = order.max_def;
    }

    parse_option-InRange :
        (x : Switch d) (o p : Options d) → InRange o → parse_option d x o ≡ done tt p → InRange p
    unfolding parse_option
    parse_option-InRange (opt_w t) o p v h = ground (arith, clamp_timeout_lem t)
    parse_option-InRange x o p v h = ground arith

    parse_each-InRange :
        (xs : List (Switch d)) (o p : Options d)
        → InRange o
        → parse_each d xs o ≡ done tt p
        → InRange p
    unfolding parse_each
    parse_each-InRange [] o p v h = ground arith
    parse_each-InRange (x ∷ xs) o p v h = elim (Run-cases (parse_option d x o)) [
      | inl (_, m, e) ↦ parse_each-InRange xs m p (parse_option-InRange x o m v e) (ground arith)
      | inr (inl (c, m, e)) ↦ absurd (ground arith)
      | inr (inr e) ↦ absurd (ground arith)
    ]

    set_port-InRange :
        (o : Options d) → InRange o → InRange (set_port d o) × (0 < (set_port d o).dest_port)
    set_port-InRange o v = ground arith

    arguments-InRange :
        (rest : List ℤ) (o p : Options d)
        → InRange o
        → arguments d rest o ≡ done tt p
        → InRange p × (p.dest_port ≡ o.dest_port)
    unfolding arguments
    arguments-InRange [] o p v h = absurd (ground arith)
    arguments-InRange (_ ∷ []) o p v h = ground arith
    arguments-InRange (_ ∷ n ∷ _) o p v h = ground arith

    -- Whatever the command line holds, the options with which main calls do_traceroute are in
    -- range: at most 255 hops, 1 to 10 probes for each, a port from 1 to 65000, a packet of at most
    -- 65000 bytes and a timeout that is neither negative nor above the maximum.
    pub read_arguments-InRange :
        (xs : List (Switch d)) (rest : List ℤ) (p : Options d)
        → read_arguments d xs rest (default_options d) ≡ done tt p
        → InRange p × (0 < p.dest_port)
    unfolding read_arguments parse_options
    read_arguments-InRange xs rest p h = elim (Run-cases (parse_each d xs (default_options d))) [
      | inl (_, m, e) ↦
          let v = parse_each-InRange xs (default_options d) m default-InRange e in
          let (w, port) = set_port-InRange m v in
          let then_args : arguments d rest (set_port d m) ≡ done tt p = ground arith in
          let (r, same) = arguments-InRange rest (set_port d m) p w then_args in
          (r, omega (arith, port, same))
      | inr (inl (c, m, e)) ↦ absurd (ground arith)
      | inr (inr e) ↦ absurd (ground arith)
    ]
