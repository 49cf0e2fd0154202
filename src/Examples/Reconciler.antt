-- ===== src/Examples/Reconciler.antt =====
-- The theorem on requeues, for a key whose sync always fails, and what the log says of it.
use furiko.Prelude.{pos, ◌≡◌, refl, ◌+◌, false, some, [], ◌∷◌, length}
use furiko.Meta.{lookup, insert}
use furiko.Reconciler.{unlimited, Queue, Handler, work, work_times, num_requeues}
use furiko.Reconciler.Retries.{work_times-endless}

abbrev failing : Handler
failing = record {
  max_requeues = pos 2;
  split = λ key. some ("default", key);
  sync_one = λ namespace name requeues. false;
}

abbrev empty_queue : Queue
empty_queue = record { requeues = []; added = []; exceeded = [] }

-- With the limit of the program's reconcilers.
abbrev failing_on : Handler
failing_on = record failing { max_requeues = unlimited }

work_times-endless_example :
    (length (work_times failing_on 5 empty_queue "a").added ≡ 0 + 5)
    × (num_requeues (work_times failing_on 5 empty_queue "a") "a"
        ≡ num_requeues empty_queue "a" + 5)
    × ((work_times failing_on 5 empty_queue "a").exceeded ≡ [])
work_times-endless_example =
    work_times-endless failing_on 5 empty_queue "a" ("default", "a") refl refl (λ c. refl)

-- The log has the key at its last requeue, and again at each later failure.
exceeded_is_logged_again : (work_times failing 4 empty_queue "a").exceeded ≡ "a" ∷ "a" ∷ "a" ∷ []
unfolding work lookup insert
exceeded_is_logged_again = refl
