-- ===== src/Traceroute/Basic/Agree.antt =====
-- The options of the two route tracers: successive_traceroute reads what basic_traceroute does.
use nnos.Prelude.{◌≡◌, inl, inr, refl, List, [], ◌∷◌, arith, Run, done, exited, blocked, Run-cases}
use nnos.Prelude.Int.{ℤ}
use nnos.Traceroute.Options.{
  Double, Options as LaterOptions, default_options as later_default, Switch as LaterSwitch,
  opt_h as later_h, opt_version as later_version, opt_n as later_n, opt_u as later_u,
  unknown as later_unknown, opt_f as later_f, opt_m as later_m, opt_q as later_q, opt_p as later_p,
  opt_w as later_w, parse_option as later_option, parse_each as later_each,
  parse_options as later_options, set_port as later_port, arguments as later_arguments,
  read_arguments as later_read,
}
use nnos.Traceroute.Basic.Options.{
  Options, default_options, Switch, opt_h, opt_version, opt_n, opt_u, unknown, opt_f, opt_m, opt_q,
  opt_p, opt_w, parse_option, parse_each, set_port, arguments, read_arguments,
}

module _ (d : Double) where
  -- every switch of the first version is one of the later version
  abbrev pub later_switch : Switch d → LaterSwitch d
  later_switch opt_h = later_h
  later_switch opt_version = later_version
  later_switch opt_n = later_n
  later_switch opt_u = later_u
  later_switch unknown = later_unknown
  later_switch (opt_f n) = later_f n
  later_switch (opt_m n) = later_m n
  later_switch (opt_q n) = later_q n
  later_switch (opt_p n) = later_p n
  later_switch (opt_w t) = later_w t

  abbrev pub later_switches : List (Switch d) → List (LaterSwitch d)
  later_switches [] = []
  later_switches (x ∷ xs) = later_switch x ∷ later_switches xs

  -- the options without debug and verbose
  abbrev pub earlier : LaterOptions d → Options d
  earlier o = record {
    probes = o.probes;
    first_ttl = o.first_ttl;
    max_ttl = o.max_ttl;
    noresolve = o.noresolve;
    dest_port_seq = o.dest_port_seq;
    dest_port = o.dest_port;
    timeout = o.timeout;
    packet_len = o.packet_len;
  }

  abbrev pub earlier_run : {A : Type 0} → Run (LaterOptions d) A → Run (Options d) A
  earlier_run (done a o) = done a (earlier o)
  earlier_run (exited c o) = exited c (earlier o)
  earlier_run blocked = blocked

  option_agrees :
      (x : Switch d) (o : LaterOptions d)
      → parse_option d x (earlier o) ≡ earlier_run (later_option d (later_switch x) o)
  unfolding parse_option later_option
  option_agrees x o = ground arith

  each_agrees :
      (xs : List (Switch d)) (o : LaterOptions d)
      → parse_each d xs (earlier o) ≡ earlier_run (later_each d (later_switches xs) o)
  unfolding parse_each later_each
  each_agrees [] o = refl
  each_agrees (x ∷ xs) o =
      let first = option_agrees x o in
      elim (Run-cases (later_option d (later_switch x) o)) [
        | inl (a, t, e) ↦ ground (arith, first, e, each_agrees xs t)
        | inr (inl (c, t, e)) ↦ ground (arith, first, e)
        | inr (inr e) ↦ ground (arith, first, e)
      ]

  arguments_agree :
      (rest : List ℤ) (o : LaterOptions d)
      → arguments d rest (set_port d (earlier o))
        ≡ earlier_run (later_arguments d rest (later_port d o))
  unfolding arguments later_arguments
  arguments_agree [] o = refl
  arguments_agree (_ ∷ []) o = refl
  arguments_agree (_ ∷ n ∷ _) o = refl

  -- On a command line that both versions know, basic_traceroute exits as successive_traceroute does,
  -- or calls do_traceroute with the same options.
  pub read_arguments_agree :
      (xs : List (Switch d)) (rest : List ℤ)
      → read_arguments d xs rest (default_options d)
        ≡ earlier_run (later_read d (later_switches xs) rest (later_default d))
  unfolding read_arguments later_read later_options
  read_arguments_agree xs rest =
      let first = each_agrees xs (later_default d) in
      elim (Run-cases (later_each d (later_switches xs) (later_default d))) [
        | inl (a, t, e) ↦ ground (arith, first, e, arguments_agree rest t)
        | inr (inl (c, t, e)) ↦ ground (arith, first, e)
        | inr (inr e) ↦ ground (arith, first, e)
      ]
