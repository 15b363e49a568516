-- ===== src/Storage/Tests.antt =====
-- producer_consumer.c on concrete inputs.
use nnos.Prelude.{◌≡◌, refl, List, [], ◌∷◌, some, done, arith}
use nnos.Prelude.Int.{pos, ◌+ℤ◌}
use nnos.Storage.{
  Storage, Params, Param, opt_c, opt_s, opt_v, defaults, eval_params, eval_param, produce,
  terminate, consume, empty_storage,
}
use nnos.Storage.Queue.{Represents, produce-consume}
use nnos.Storage.Refines.{Turn, puts, gets, take_turns, queue_turns, storage_is_queue}

abbrev options : List Param
options = opt_c (pos 3) ∷ opt_s (pos 1) ∷ opt_v ∷ []

abbrev chosen : Params
chosen = record defaults { total_consumers = pos 3; storage_capacity = pos 1; verbose = pos 1 }

evaluated : eval_params options defaults ≡ done tt chosen
unfolding eval_params eval_param ◌+ℤ◌
evaluated = refl

abbrev turns : List Turn
turns = puts 97 ∷ puts 98 ∷ gets ∷ puts 99 ∷ gets ∷ []

queued : queue_turns 2 turns [] ≡ some (97 ∷ 98 ∷ [], 99 ∷ [])
unfolding queue_turns
queued = refl

storage_is_queue_example :
    ((take_turns turns (empty_storage 2)).0 ≡ 97 ∷ 98 ∷ [])
    × Represents (take_turns turns (empty_storage 2)).1 (99 ∷ [])
storage_is_queue_example =
    storage_is_queue 2 turns (97 ∷ 98 ∷ []) (99 ∷ []) (omega arith) (omega arith) queued

produce-consume_example :
    (t : Storage) × (consume 4 (terminate 1 (produce (97 ∷ 98 ∷ 99 ∷ []) (empty_storage 5)))
      ≡ some (97 ∷ 98 ∷ 99 ∷ [], t))
    × Represents t []
produce-consume_example = produce-consume 5 (97 ∷ 98 ∷ 99 ∷ []) (omega arith) (omega arith) refl
