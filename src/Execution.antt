-- ===== src/Execution.antt =====
-- `InlineExecutionService`: include/framekit/service/execution.hpp.
-- A task is a value of `T`. What its run does is `run`, a parameter: it returns or throws, it may
-- change the world, and it may use the service, which is not locked meanwhile; so it is given the
-- service and returns one, in which other threads may have had a part too.
pub mod Uses
pub mod Tracked
pub mod Kept
pub mod Results
pub mod Closed
pub mod Registry
use framekit.Base.{
  ℕ, ◌+◌, Bool, true, false, not, ◌&&◌, ◌||◌, String, List, [], ◌∷◌, ◌++◌, Option, none, some,
  length, u64, ◌==◌, nat_eq, if◌then◌else◌,
}
use framekit.Base.Assoc.{lookup, insert}

pub data ExecutionTaskState : Type 0 where
  queued running completed cancelled failed rejected : ExecutionTaskState

pub record ExecutionTaskResult : Type 0 where
  pub task_id : ℕ  -- uint64_t
  pub state : ExecutionTaskState
  pub detail : String

pub data SchedulerPolicyKind : Type 0 where
  single_threaded fixed_pool stage_affine : SchedulerPolicyKind

pub record SchedulerPolicyConfig : Type 0 where
  pub kind : SchedulerPolicyKind
  pub worker_count : ℕ
  pub stage_affinity_enabled : Bool

pub record ExecutionServiceMetrics : Type 0 where
  pub submitted : ℕ  -- uint64_t, as the next four
  pub rejected_count : ℕ
  pub cancelled_count : ℕ
  pub completed_count : ℕ
  pub failed_count : ℕ
  pub pending_count : ℕ

pub record PendingTask (T : Type 0) : Type 0 where
  pub task_id : ℕ
  pub task : T

pub record ExecutionService (T : Type 0) : Type 0 where
  pub shutting_down : Bool
  pub policy : SchedulerPolicyConfig
  pub metrics : ExecutionServiceMetrics
  pub next_task_id : ℕ  -- uint64_t
  pub pending : List (PendingTask T)
  pub results : List (ℕ × ExecutionTaskResult)

-- How a task ends: it returns, throws a `std::exception` with a text, or throws anything else.
pub data TaskEnd : Type 0 where
  returned : TaskEnd
  threw : String → TaskEnd
  threw_unknown : TaskEnd

abbrev pub result_of : ℕ → ExecutionTaskState → String → ExecutionTaskResult
result_of task_id state detail = record { task_id = task_id; state = state; detail = detail }

-- `policy_ = policy`, normalized.
unfoldable pub normalize_policy :
    SchedulerPolicyConfig → SchedulerPolicyKind → SchedulerPolicyConfig
normalize_policy policy single_threaded = record policy {
  worker_count = 1;
  stage_affinity_enabled = false;
}
normalize_policy policy _ =
    if policy.worker_count == 0 then record policy { worker_count = 1 } else policy

abbrev pub is_queued : ExecutionTaskState → Bool
is_queued queued = true
is_queued _ = false

abbrev pub outcome_of : ℕ → TaskEnd → ExecutionTaskResult
outcome_of task_id returned = result_of task_id completed "completed"
outcome_of task_id (threw what) = result_of task_id failed what
outcome_of task_id threw_unknown = result_of task_id failed "task threw non-standard exception"

abbrev pub counted : ExecutionServiceMetrics → ExecutionTaskState → ExecutionServiceMetrics
counted metrics completed = record metrics { completed_count = u64 (metrics.completed_count + 1) }
counted metrics failed = record metrics { failed_count = u64 (metrics.failed_count + 1) }
counted metrics _ = metrics

module _ {T : Type 0} where
  unfoldable pub new_service : ExecutionService T
  new_service = record {
    shutting_down = false;
    policy = record { kind = single_threaded; worker_count = 1; stage_affinity_enabled = false };
    metrics = record {
      submitted = 0;
      rejected_count = 0;
      cancelled_count = 0;
      completed_count = 0;
      failed_count = 0;
      pending_count = 0;
    };
    next_task_id = 1;
    pending = [];
    results = [];
  }

  unfoldable pub configure_policy : ExecutionService T → SchedulerPolicyConfig → ExecutionService T
  unfolding normalize_policy
  configure_policy s policy = record s { policy = normalize_policy policy policy.kind }

  unfoldable pub reject : ExecutionService T → String → ExecutionService T × ExecutionTaskResult
  reject s detail = (
    record s {
      metrics = record (s.metrics) { rejected_count = u64 (s.metrics.rejected_count + 1) };
    },
    result_of 0 rejected detail,
  )

  unfoldable pub enqueue : ExecutionService T → T → ExecutionService T × ExecutionTaskResult
  enqueue s task =
      let task_id = s.next_task_id in
      let pending = s.pending ++ record { task_id = task_id; task = task } ∷ [] in
      let result = result_of task_id queued "queued" in
      (
        record s {
          next_task_id = u64 (task_id + 1);
          pending = pending;
          results = insert task_id result s.results;
          metrics = record (s.metrics) {
            submitted = u64 (s.metrics.submitted + 1);
            pending_count = length pending;
          };
        },
        result,
      )

  -- An empty `std::function` is `none`.
  unfoldable pub submit_task :
      ExecutionService T → Option T → ExecutionService T × ExecutionTaskResult
  unfolding reject enqueue
  submit_task s none =
      reject s (if s.shutting_down then "service is shutting down" else "task is empty")
  submit_task s (some task) =
      if s.shutting_down then reject s "service is shutting down" else enqueue s task

  unfoldable pub submit : ExecutionService T → Option T → ExecutionService T × Bool
  submit s task = let (s', result) = submit_task s task in (s', is_queued result.state)

  -- `pending_` without the first task that has the id; `none` if there is none.
  unfoldable pub erase_first : ℕ → List (PendingTask T) → Option (List (PendingTask T))
  erase_first task_id [] = none
  erase_first task_id (first ∷ rest) =
      let later = erase_first task_id rest in
      if not (first.task_id == task_id)
      then elim later [ none ↦ none | some kept ↦ some (first ∷ kept) ]
      else some rest

  unfoldable pub cancel_in :
      ExecutionService T → ℕ → Option (List (PendingTask T)) → ExecutionService T × Bool
  cancel_in s task_id none = (s, false)
  cancel_in s task_id (some kept) = (
    record s {
      pending = kept;
      results = insert task_id (result_of task_id cancelled "cancelled before execution") s.results;
      metrics = record (s.metrics) {
        cancelled_count = u64 (s.metrics.cancelled_count + 1);
        pending_count = length kept;
      };
    },
    true,
  )

  unfoldable pub cancel : ExecutionService T → ℕ → ExecutionService T × Bool
  unfolding cancel_in erase_first
  cancel s task_id =
      if s.shutting_down then (s, false) else cancel_in s task_id (erase_first task_id s.pending)

  -- The loop of `BeginShutdown` over the pending tasks.
  unfoldable pub cancel_all : List (PendingTask T) → ExecutionService T → ExecutionService T
  cancel_all [] s = s
  cancel_all (first ∷ rest) s = cancel_all rest (record s {
    results =
        insert first.task_id (result_of first.task_id cancelled "cancelled by shutdown") s.results;
    metrics = record (s.metrics) { cancelled_count = u64 (s.metrics.cancelled_count + 1) };
  })

  unfoldable pub begin_shutdown : ExecutionService T → ExecutionService T × Bool
  unfolding cancel_all
  begin_shutdown s = if s.shutting_down then (s, true) else (
    let s' = cancel_all s.pending (record s { shutting_down = true }) in
        record s' { pending = []; metrics = record (s'.metrics) { pending_count = 0 } },
    true,
  )

  unfoldable pub await_shutdown : ExecutionService T → Bool
  await_shutdown s = s.shutting_down

  unfoldable pub find_result : ExecutionService T → ℕ → Option ExecutionTaskResult
  find_result s task_id = lookup task_id s.results

  unfoldable pub mark_running : ExecutionService T → ℕ → ExecutionService T
  mark_running s task_id = record s {
    results = insert task_id (result_of task_id running "running") s.results;
  }

  unfoldable pub finish : ExecutionService T → ExecutionTaskResult → ExecutionService T
  finish s outcome = record s {
    results = insert outcome.task_id outcome s.results;
    metrics = counted s.metrics outcome.state;
  }

  unfoldable pub claim : ExecutionService T → ExecutionService T
  claim s = record s { pending = []; metrics = record (s.metrics) { pending_count = 0 } }

  module _ {W : Type 0} (run : T → ExecutionService T → W → TaskEnd × ExecutionService T × W) where
    -- The loop of `Drain` over the tasks that it took.
    unfoldable pub run_tasks :
        List (PendingTask T)
        → ExecutionService T
        → W
        → ExecutionService T × W × List ExecutionTaskResult
    run_tasks [] s w = (s, w, [])
    run_tasks (first ∷ rest) s w =
        let (end, s', w') = run first.task (mark_running s first.task_id) w in
        let outcome = outcome_of first.task_id end in
        let (s'', w'', drained) = run_tasks rest (finish s' outcome) w' in
        (s'', w'', outcome ∷ drained)

    unfoldable pub drain :
        ExecutionService T → W → ExecutionService T × W × List ExecutionTaskResult
    unfolding run_tasks claim
    drain s w = run_tasks s.pending (claim s) w
