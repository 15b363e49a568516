-- ===== src/Counter/Tests.antt =====
-- The counting threads and the watcher on a concrete schedule.
use nnos.Prelude.{◌*◌, ◌+◌, ◌≡◌, true, List, [], ◌∷◌, ◌++◌, replicate, refl, arith}
use nnos.Counter.{begin, tcount, Turn, inc, watcher, finished, run, step, step_inc, step_watch}
use nnos.Counter.Progress.{asked, all_can_finish}
use nnos.Counter.Final.{ended, reached, final_count, watcher_finishes}

-- the watcher waits, and one thread counts after the other
abbrev one_by_one : List Turn
one_by_one = watcher ∷ watcher ∷ (replicate 50 (inc 0) ++ replicate 50 (inc 1))

abbrev to_the_end : List Turn
to_the_end = one_by_one ++ replicate 5 watcher

counted_out : ended (reached 2 one_by_one).incs ≡ true
unfolding run step step_inc step_watch
counted_out = refl

all_out : ended (reached 2 to_the_end).incs ≡ true
unfolding run step step_inc step_watch
all_out = refl

watched : (reached 2 to_the_end).watch ≡ finished
unfolding run step step_inc step_watch
watched = refl

final_count_example : (reached 2 to_the_end).count ≡ 120
final_count_example = final_count 2 to_the_end all_out watched

watcher_finishes_example :
    (run (watcher ∷ watcher ∷ watcher ∷ watcher ∷ watcher ∷ []) (reached 2 one_by_one)).watch
    ≡ finished
watcher_finishes_example = watcher_finishes 2 one_by_one (omega arith) counted_out

all_can_finish_example :
    (more : List Turn) × (asked more ≡ true)
    × (ended (run more (run one_by_one (begin 2))).incs ≡ true)
    × ((run more (run one_by_one (begin 2))).watch ≡ finished)
    × ((run more (run one_by_one (begin 2))).count ≡ 2 * tcount + 100)
all_can_finish_example = all_can_finish 2 (omega arith) one_by_one
