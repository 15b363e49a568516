-- ===== src/Echo/Tests.antt =====
-- The echo server on concrete inputs.
use nnos.Prelude.{
  ℕ, suc, ◌≡◌, ◌<◌, ◌≢◌, ◌&&◌, true, false, none, some, List, [], ◌∷◌, ◌++◌, if◌then◌else◌, length,
  leb, ap, refl, arith, done,
}
use nnos.Prelude.Int.{pos, negsuc}
use nnos.Echo.{Net, FdSet, Server, Event, write, listening, round, serve}
use nnos.Echo.Invariant.{NetLaw, IsServing, listening-IsServing}
use nnos.Echo.Round.{answered, round-Answers}
use nnos.Echo.Bytes.{SendsAll, received_bytes, sent_bytes, log_of, serve-Echoes}
use nnos.Echo.Listen.{Attempt, try_addresses, Start, main, MainServes, main-Serves}

-- every watched descriptor is ready, one client connects, and each recv has one byte, the time
abbrev busy : Net
busy = record {
  World = ℕ;
  select = λ set n w. (some set, suc w);
  accept = λ set w. (if set 5 then none else some 5, suc w);
  recv = λ d w. (some (w ∷ []), suc w);
  send = λ d bytes w. (some (length bytes), suc w);
}

busy-NetLaw : NetLaw busy
busy-NetLaw = record {
  select_asked = λ set ready n w e i r. ground (arith, ap (λ f. f i) (some_inj e));
  accept_new = λ set cs w e. ground (arith, ap set {x = 5} {y = cs});
}
  where
    some_inj : {f g : FdSet} → some f ≡ some g → f ≡ g
    some_inj e = cc

busy-SendsAll : SendsAll busy
busy-SendsAll d bytes w = refl

abbrev fresh : Server busy
fresh = record {
  rfd = write (λ i. false) 3 true;
  dsize = 4;
  conn = write (λ i. none) 3 (some 0);
  next = 1;
  log = [];
  world = 0;
}

fresh-IsServing : IsServing busy 3 1024 fresh
unfolding listening
fresh-IsServing = listening-IsServing busy busy-NetLaw 3 1024 0 (omega arith)

round-Answers_example :
    (t : Server busy) × (es : List Event) × (round busy 3 1024 fresh ≡ done tt t)
    × (t.log ≡ [] ++ es)
    × IsServing busy 3 1024 t
    × ((k : ℕ) → k ≢ 3 → answered k es ≡ (if leb 3 k && fresh.rfd k then fresh.conn k ∷ [] else []))
round-Answers_example = round-Answers busy busy-NetLaw 3 1024 fresh fresh.rfd fresh-IsServing refl

serve-Echoes_example :
    sent_bytes 1 (log_of (serve busy 3 1024 3 (listening busy 3 0)))
    ≡ received_bytes 1 (log_of (serve busy 3 1024 3 (listening busy 3 0)))
serve-Echoes_example = serve-Echoes busy 3 1024 busy-SendsAll 3 0 1

-- the first address is in use, the second can be bound
abbrev addresses : List Attempt
addresses =
    record { socket = some 3; setsockopt = pos 0; bind = negsuc 0 }
    ∷ record { socket = some 4; setsockopt = pos 0; bind = pos 0 }
    ∷ []

abbrev start : Start
start = record { getaddrinfo = pos 0; addresses = addresses; listen = pos 0; getdtablesize = 4096 }

bound : try_addresses addresses ≡ (some 4, 3 ∷ [])
unfolding try_addresses
bound = refl

small : (s : ℕ) → (try_addresses addresses).0 ≡ some s → s < 1024
unfolding try_addresses
small s e = ground arith

main-Serves_example : MainServes busy busy-NetLaw (main busy 2 start 0)
main-Serves_example = main-Serves busy busy-NetLaw 2 start 0 small
