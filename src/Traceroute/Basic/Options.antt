-- ===== src/Traceroute/Basic/Options.antt =====
-- 07-sockets/traceroute/basic_traceroute/traceroute.c: struct options, and main up to the call of
-- do_traceroute. getopt, atoi and atof are calls of the C library: a switch carries the number that
-- they return. The family of the addresses is always AF_INET and has no field. Texts are left out.
use nnos.Prelude.{
  Bool, true, false, List, [], ◌∷◌, if◌then◌else◌, ltb, ◌==◌, ℕ, Act, ◌>>◌, skip, modify, exit,
}
use nnos.Prelude.Int.{ℤ, pos, ltb_ℤ}
use nnos.Traceroute.Options.{Double, to_word}

module _ (d : Double) where
  pub record Options : Type 0 where
    pub probes : ℤ
    pub first_ttl : ℤ
    pub max_ttl : ℤ
    pub noresolve : Bool
    pub dest_port_seq : Bool
    pub dest_port : ℕ
    pub timeout : d.Value
    pub packet_len : ℕ

  abbrev pub default_options : Options
  default_options = record {
    probes = pos 3;
    first_ttl = pos 1;
    max_ttl = pos 30;
    noresolve = false;
    dest_port_seq = true;
    dest_port = 0;
    timeout = d.def_timeout;
    packet_len = 40;
  }

  -- what getopt returns for "hVf:m:nw:q:Up:", with the number read from the argument
  pub data Switch : Type 0 where
    opt_h opt_version opt_n opt_u unknown : Switch
    opt_f opt_m opt_q opt_p : ℤ → Switch
    opt_w : d.Value → Switch

  abbrev pub at_most : ℤ → ℤ → ℤ
  at_most bound n = if ltb_ℤ bound n then bound else n

  abbrev pub with_timeout : d.Value → d.Value
  with_timeout t =
      let t' = if d.lt d.max_timeout t then d.max_timeout else t in
      if d.lt t' d.zero_s then d.zero_s else t'

  abbrev pub with_probes : ℤ → ℤ
  with_probes n = let n' = at_most (pos 10) n in if ltb_ℤ n' (pos 1) then pos 1 else n'

  -- The cases of the switch. -f takes any number. dest_port is an in_port_t of 16 bits, so that the
  -- test reads what is left of the number.
  unfoldable pub parse_option : Switch → Act Options (Unit {0})
  parse_option opt_h = exit 0
  parse_option opt_version = exit 0
  parse_option (opt_f n) = modify (λ o. record o { first_ttl = n })
  parse_option (opt_m n) = modify (λ o. record o { max_ttl = at_most (pos 255) n })
  parse_option opt_n = modify (λ o. record o { noresolve = true })
  parse_option (opt_w t) = modify (λ o. record o { timeout = with_timeout t })
  parse_option (opt_q n) = modify (λ o. record o { probes = with_probes n })
  parse_option opt_u = modify (λ o. record o {
    dest_port_seq = false;
    dest_port = if o.dest_port == 0 then 53 else o.dest_port;
  })
  parse_option (opt_p n) =
      let port = to_word 16 n in
      modify (λ o. record o { dest_port = if ltb 65000 port then 0 else port })
  parse_option unknown = exit 1

  unfoldable pub parse_each : List Switch → Act Options (Unit {0})
  parse_each [] = skip
  parse_each (o ∷ os) = let rest = parse_each os in do parse_option o; rest

  -- "set correct destination port"
  abbrev pub set_port : Options → Options
  set_port o = record o {
    dest_port = if o.dest_port == 0 then (if o.dest_port_seq then 33434 else 53) else o.dest_port;
  }

  -- the host and the packet length, each as the number that atoi reads from it
  unfoldable pub arguments : List ℤ → Act Options (Unit {0})
  arguments [] = exit 1
  arguments (host ∷ []) = skip
  arguments (host ∷ len ∷ more) =
      let n = to_word 64 len in
      modify (λ o. record o { packet_len = if ltb 65000 n then 65000 else n })

  -- main, up to the call of do_traceroute
  unfoldable pub read_arguments : List Switch → List ℤ → Act Options (Unit {0})
  read_arguments os rest = do parse_each os; modify set_port; arguments rest
