-- ===== src/Traceroute/Options.antt =====
-- 07-sockets/traceroute/successive_traceroute/options.c, options.h and the arguments in main of
-- traceroute.c. getopt, atoi and atof are calls of the C library: an option carries the number that
-- they return. `double` is a parameter with the one test that the code makes of it; an `int` is
-- unbounded but for the conversions, which are written out. Usage and version texts are left out.
use nnos.Prelude.{
  ℕ, ◌-◌, ◌%◌, ◌^◌, Bool, true, false, List, [], ◌∷◌, if◌then◌else◌, ltb, ◌==◌, Act, ◌>>◌, skip,
  modify, exit,
}
use nnos.Prelude.Int.{ℤ, pos, negsuc, ◌+ℤ◌, ◌-ℤ◌, ltb_ℤ}

-- what the code uses of `double`
pub record Double : Type 1 where
  pub Value : Type 0
  pub lt : Value → Value → Bool
  pub zero_s : Value
  pub def_timeout : Value
  pub max_timeout : Value

abbrev pub max_ttl_limit : ℤ
max_ttl_limit = pos 255

abbrev pub max_probes : ℤ
max_probes = pos 10

abbrev pub max_dest_port : ℕ
max_dest_port = 65000

abbrev pub def_dest_port : ℕ
def_dest_port = 53

abbrev pub def_dest_port_base : ℕ
def_dest_port_base = 33434

abbrev pub max_packet_len : ℕ
max_packet_len = 65000

-- conversion of an `int` to an unsigned type of `w` bits
abbrev pub to_word : ℕ → ℤ → ℕ
to_word w (pos n) = n % 2 ^ w
to_word w (negsuc n) = (2 ^ w - 1) - n % 2 ^ w

module _ (d : Double) where
  pub record Options : Type 0 where
    pub probes : ℤ
    pub first_ttl : ℤ
    pub max_ttl : ℤ
    pub noresolve : Bool
    pub dest_port_seq : Bool
    pub dest_port : ℕ
    pub timeout : d.Value
    pub packet_len : ℕ
    pub debug : Bool
    pub verbose : ℤ

  abbrev pub default_options : Options
  default_options = record {
    probes = pos 3;
    first_ttl = pos 1;
    max_ttl = pos 30;
    noresolve = false;
    dest_port_seq = true;
    dest_port = 0;
    timeout = d.def_timeout;
    packet_len = 40;
    debug = false;
    verbose = pos 1;
  }

  -- what getopt returns, with the number read from the argument
  pub data Switch : Type 0 where
    opt_h opt_version opt_v opt_quiet opt_d opt_n opt_u unknown : Switch
    opt_f opt_m opt_q opt_p : ℤ → Switch
    opt_w : d.Value → Switch

  abbrev pub clamp_timeout : d.Value → d.Value
  clamp_timeout t =
      let capped = if d.lt d.max_timeout t then d.max_timeout else t in
      if d.lt capped d.zero_s then d.zero_s else capped

  abbrev pub clamp_probes : ℤ → ℤ
  clamp_probes n =
      let capped = if ltb_ℤ max_probes n then max_probes else n in
      if ltb_ℤ capped (pos 1) then pos 1 else capped

  -- dest_port is an in_port_t of 16 bits: the test reads what is left of the number.
  abbrev pub clamp_port : ℕ → ℕ
  clamp_port n = if ltb max_dest_port n then 0 else n

  -- the cases of the switch in parse_options
  unfoldable pub parse_option : Switch → Act Options (Unit {0})
  parse_option opt_h = exit 0
  parse_option opt_version = exit 0
  parse_option opt_v = modify (λ o. record o {
    verbose = if ltb_ℤ o.verbose (pos 100) then o.verbose +ℤ pos 1 else o.verbose;
  })
  parse_option opt_quiet = modify (λ o. record o {
    verbose = if ltb_ℤ (pos 0) o.verbose then o.verbose -ℤ pos 1 else o.verbose;
  })
  parse_option opt_d = modify (λ o. record o { debug = true })
  parse_option (opt_f n) = modify (λ o. record o { first_ttl = n })
  parse_option (opt_m n) =
      modify (λ o. record o { max_ttl = if ltb_ℤ max_ttl_limit n then max_ttl_limit else n })
  parse_option opt_n = modify (λ o. record o { noresolve = true })
  parse_option (opt_w t) = modify (λ o. record o { timeout = clamp_timeout t })
  parse_option (opt_q n) = modify (λ o. record o { probes = clamp_probes n })
  parse_option opt_u = modify (λ o. record o {
    dest_port_seq = false;
    dest_port = if o.dest_port == 0 then def_dest_port else o.dest_port;
  })
  parse_option (opt_p n) = modify (λ o. record o { dest_port = clamp_port (to_word 16 n) })
  parse_option unknown = exit 1

  unfoldable pub parse_each : List Switch → Act Options (Unit {0})
  parse_each [] = skip
  parse_each (o ∷ os) = let rest = parse_each os in do parse_option o; rest

  -- "set correct destination port"
  abbrev pub set_port : Options → Options
  set_port o = record o {
    dest_port =
        if o.dest_port == 0
        then (if o.dest_port_seq then def_dest_port_base else def_dest_port)
        else o.dest_port;
  }

  unfoldable pub parse_options : List Switch → Act Options (Unit {0})
  parse_options os = do parse_each os; modify set_port

  -- main, from the options to the call of do_traceroute: the rest of the arguments is given by the
  -- numbers that atoi reads from them.
  unfoldable pub arguments : List ℤ → Act Options (Unit {0})
  arguments [] = exit 1
  arguments (host ∷ []) = skip
  arguments (host ∷ len ∷ more) = modify (λ o. record o {
    packet_len = if ltb max_packet_len (to_word 64 len) then max_packet_len else to_word 64 len;
  })

  unfoldable pub read_arguments : List Switch → List ℤ → Act Options (Unit {0})
  read_arguments os rest = do parse_options os; arguments rest
