-- ===== src/Samples/Tasks.antt =====
-- The execution service with tasks that submit other tasks.
use mathlib.Core.List.{Permᴰ}
use framekit.Base.{
  ℕ, suc, ◌≡◌, ◌≢◌, refl, Bool, true, false, List, [], ◌∷◌, ◌++◌, map, some, All, arith, zero,
}
use framekit.Base.Assoc.{lookup, insert}
use framekit.Execution.{
  ExecutionService, TaskEnd, returned, threw, new_service, submit_task, cancel, begin_shutdown,
  drain, completed, failed, cancelled, find_result, result_of, rejected, claim,
}
use framekit.Execution.Uses.{
  submits, cancels, Uses, here, then_use, Reach, fresh, used, Accounts, Reach-Accounts,
}
use framekit.Execution.Results.{
  result_ids, ids, Reported, FinalStays, drain_lem, now, after_drain, find_result-final,
}
use framekit.Base.{nat_beq, String, reverse}
use framekit.Base.Calls.{make_calls}
use framekit.Base.Falling.{Ascending}
use framekit.Execution.Registry.{
  Registry, RegistryEntry, context_owned, external_owned, shutting_down, new_registry,
  register_service, shut_down_registry,
}
use framekit.Execution.Registry.Numbered.{Reach as RegistryReach, new, next, registered, numbers}
use framekit.Execution.Registry.Sorting.{ByOwnership, noted}
use framekit.Execution.Registry.Shutdown.{service_calls, shut_down_registry_lem}
use framekit.Execution.Closed.{shutdown-final}

-- A task is a number, and the world notes the runs. Task 1 throws; task 2 cancels the first task.
abbrev run_number : ℕ → ExecutionService ℕ → List ℕ → TaskEnd × ExecutionService ℕ × List ℕ
run_number zero s w = (returned, s, w ++ 0 ∷ [])
run_number (suc zero) s w = (threw "bad", s, w ++ 1 ∷ [])
run_number (suc (suc n)) s w = (returned, (cancel s 1).0, w ++ 2 ∷ [])

run_number-Uses : (n : ℕ) (s : ExecutionService ℕ) (w : List ℕ) → Uses s (run_number n s w).1
run_number-Uses zero s w = here
run_number-Uses (suc zero) s w = here
run_number-Uses (suc (suc n)) s w = then_use here (cancels 1)

abbrev two_tasks : ExecutionService ℕ
two_tasks = (submit_task (submit_task new_service (some 1)).0 (some 2)).0

two_tasks-Reach : Reach run_number run_number-Uses two_tasks
unfolding submit_task new_service
two_tasks-Reach =
    used (used fresh (submits (some 1) (omega arith))) (submits (some 2) (omega arith))

Reach-Accounts_example : Accounts 0 two_tasks
Reach-Accounts_example = Reach-Accounts run_number run_number-Uses two_tasks-Reach

drain_lem_example :
    let (s', w', reports) = drain run_number two_tasks [] in
    (result_ids reports ≡ ids two_tasks.pending)
    × All (Reported s'.results) reports
    × FinalStays two_tasks.results s'.results
drain_lem_example = drain_lem run_number run_number-Uses two_tasks [] two_tasks-Reach

abbrev one_cancelled : ExecutionService ℕ
one_cancelled = (cancel two_tasks 1).0

one_is_cancelled :
    find_result one_cancelled 1 ≡ some (result_of 1 cancelled "cancelled before execution")
unfolding submit_task new_service cancel find_result lookup insert
one_is_cancelled = refl

two_reports :
    (drain run_number two_tasks []).2
    ≡ result_of 1 failed "bad" ∷ result_of 2 completed "completed" ∷ []
unfolding submit_task new_service drain
two_reports = refl

find_result-final_example :
    find_result (drain run_number one_cancelled []).0 1
    ≡ some (result_of 1 cancelled "cancelled before execution")
find_result-final_example =
    find_result-final run_number run_number-Uses 1
      (result_of 1 cancelled "cancelled before execution") (used two_tasks-Reach (cancels 1))
      (after_drain [] now) one_is_cancelled refl

shutdown-final_example :
    let s' = (begin_shutdown two_tasks).0 in
    (s'.shutting_down ≡ true)
    × (s'.pending ≡ [])
    × ((submit_task s' (some 0)).1 ≡ result_of 0 rejected "service is shutting down")
    × (drain run_number s' [] ≡ (claim s', [], []))
shutdown-final_example = shutdown-final run_number run_number-Uses 0 [] two_tasks-Reach now

-- Two services of which the second does not end, and an external one.
abbrev begin_number : ℕ → List ℕ → List ℕ × Bool
begin_number n w = (w ++ n ∷ [], true)

abbrev await_number : ℕ → List ℕ → List ℕ × Bool
await_number n w = (w, nat_beq n 1)

abbrev three_services : Registry ℕ
three_services =
    (register_service
      (register_service (register_service new_registry (some 1) "a" context_owned false).0 (some 2)
        "b" context_owned false).0
      (some 3) "c" external_owned false).0

services_live : three_services.phase ≢ shutting_down
unfolding register_service new_registry lookup insert
services_live e = cc

three_services_reached : RegistryReach three_services
unfolding register_service new_registry lookup insert
three_services_reached =
    next
      (next (next new (registered (some 1) "a" context_owned false (omega arith)))
        (registered (some 2) "b" context_owned false (omega arith)))
      (registered (some 3) "c" external_owned false (omega arith))

-- The map visited backwards.
abbrev backwards : List (String × RegistryEntry ℕ)
backwards = reverse three_services.entries

three_services_backwards : Permᴰ three_services.entries backwards
unfolding register_service new_registry lookup insert
three_services_backwards =
    Permᴰ.trans (Permᴰ.swap refl refl)
      (Permᴰ.trans (Permᴰ.cons refl (Permᴰ.swap refl refl)) (Permᴰ.swap refl refl))

shut_down_registry_lem_example :
    let (r', w', ok) = shut_down_registry begin_number await_number three_services backwards [] in
    (owned : List (String × RegistryEntry ℕ)) × (external : List (String × RegistryEntry ℕ))
    × (visited : List (String × RegistryEntry ℕ)) × ByOwnership three_services.entries owned
        external
    × Ascending (numbers owned)
    × ((w', ok) ≡ make_calls (service_calls begin_number await_number (reverse owned)) [])
    × (r'.last_shutdown_order ≡ reverse (map noted owned))
    × ByOwnership backwards visited r'.entries
    × (r'.phase ≡ shutting_down)
shut_down_registry_lem_example =
    shut_down_registry_lem begin_number await_number three_services backwards []
      three_services_reached services_live three_services_backwards
