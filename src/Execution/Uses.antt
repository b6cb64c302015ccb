-- ===== src/Execution/Uses.antt =====
-- What a service is used for, and that its metrics account for every task.
use framekit.Base.{
  ℕ, suc, ◌+◌, ◌<◌, ◌≡◌, refl, Bool, true, not, List, [], ◌∷◌, Option, none, some, length,
  length-append, u64, ◌==◌, nat_eq, if_cases, arith,
}
use framekit.Base.Assoc.{insert}
use framekit.Execution.{
  ExecutionService, ExecutionTaskResult, SchedulerPolicyConfig, PendingTask, TaskEnd, returned,
  threw, threw_unknown, new_service, configure_policy, submit_task, reject, enqueue, erase_first,
  cancel_in, cancel, cancel_all, begin_shutdown, outcome_of, result_of, cancelled, mark_running,
  finish, claim, run_tasks, drain,
}

module _ {T : Type 0} where
  -- One locked operation other than `Drain`, with fewer than 2^64 tasks.
  pub data Use (s : ExecutionService T) : ExecutionService T → Type 0 where
    configures : (policy : SchedulerPolicyConfig) → Use s (configure_policy s policy)
    submits :
        (task : Option T) → s.next_task_id + 1 < 18446744073709551616 → Use s (submit_task s task).0
    cancels : (task_id : ℕ) → Use s (cancel s task_id).0
    shuts_down : Use s (begin_shutdown s).0

  pub data Uses (s : ExecutionService T) : ExecutionService T → Type 0 where
    here : Uses s s
    then_use : {t u : ExecutionService T} → Uses s t → Use t u → Uses s u

  -- Every task that was submitted is pending, cancelled, completed, failed, or one of the `taken`
  -- ones that a drain has yet to finish; the counters are 64-bit.
  pub record Accounts (taken : ℕ) (s : ExecutionService T) : Type 0 where
    pub pending : s.metrics.pending_count ≡ length s.pending
    pub total :
        s.metrics.submitted
        ≡ u64 (
            length s.pending
            + s.metrics.cancelled_count
            + s.metrics.completed_count
            + s.metrics.failed_count
            + taken)

  enqueue-Accounts :
      (taken : ℕ) (s : ExecutionService T) (task : T)
      → Accounts taken s
      → Accounts taken (enqueue s task).0
  unfolding enqueue
  enqueue-Accounts taken s task h = record {
    pending = refl;
    total = omega (
      arith,
      h.total,
      length-append s.pending (record { task_id = s.next_task_id; task = task } ∷ []),
    );
  }

  submit_task-Accounts :
      (taken : ℕ) (s : ExecutionService T) (task : Option T)
      → Accounts taken s
      → Accounts taken (submit_task s task).0
  unfolding submit_task reject
  submit_task-Accounts taken s none h = record { pending = h.pending; total = h.total }
  submit_task-Accounts taken s (some task) h =
      if_cases (λ (r : ExecutionService T × ExecutionTaskResult). Accounts taken r.0)
        s.shutting_down (λ _. record { pending = h.pending; total = h.total })
        (λ _. enqueue-Accounts taken s task h)

  -- One task with the id is taken out of the list.
  pub data Erased (task_id : ℕ) : List (PendingTask T) → List (PendingTask T) → Type 0 where
    gone :
        {t : PendingTask T} {l : List (PendingTask T)}
        → t.task_id ≡ task_id
        → Erased task_id (t ∷ l) l
    behind :
        {t : PendingTask T} {l kept : List (PendingTask T)}
        → Erased task_id l kept
        → Erased task_id (t ∷ l) (t ∷ kept)

  abbrev pub Erasure : ℕ → List (PendingTask T) → Option (List (PendingTask T)) → Type 0
  Erasure task_id l none = Unit {0}
  Erasure task_id l (some kept) = Erased task_id l kept

  Erasure-behind :
      (task_id : ℕ) (first : PendingTask T) (rest : List (PendingTask T))
      (later : Option (List (PendingTask T)))
      → Erasure task_id rest later
      → Erasure task_id
          (first ∷ rest)
          (elim later [ none ↦ none | some kept ↦ some (first ∷ kept) ])
  Erasure-behind task_id first rest none h = tt
  Erasure-behind task_id first rest (some kept) h = behind h

  pub erase_first-Erasure :
      (task_id : ℕ) (l : List (PendingTask T)) → Erasure task_id l (erase_first task_id l)
  unfolding erase_first
  erase_first-Erasure task_id [] = tt
  erase_first-Erasure task_id (first ∷ rest) =
      if_cases (Erasure task_id (first ∷ rest)) (not (first.task_id == task_id))
        (λ other.
          Erasure-behind task_id first rest (erase_first task_id rest)
            (erase_first-Erasure task_id rest))
        (λ same. gone (ground (arith, same)))

  length-Erased :
      {task_id : ℕ} {l kept : List (PendingTask T)}
      → Erased task_id l kept
      → length l ≡ suc (length kept)
  length-Erased (gone same) = refl
  length-Erased (behind h) = omega (arith, length-Erased h)

  cancel_in-Accounts :
      (taken : ℕ) (s : ExecutionService T) (task_id : ℕ) (found : Option (List (PendingTask T)))
      → Erasure task_id s.pending found
      → Accounts taken s
      → Accounts taken (cancel_in s task_id found).0
  unfolding cancel_in
  cancel_in-Accounts taken s task_id none less h = h
  cancel_in-Accounts taken s task_id (some kept) less h = record {
    pending = refl;
    total = omega (arith, h.total, length-Erased less);
  }

  record AllCancelled (l : List (PendingTask T)) (s s' : ExecutionService T) : Type 0 where
    submitted : s'.metrics.submitted ≡ s.metrics.submitted
    completed : s'.metrics.completed_count ≡ s.metrics.completed_count
    failed : s'.metrics.failed_count ≡ s.metrics.failed_count
    cancelled : u64 s'.metrics.cancelled_count ≡ u64 (s.metrics.cancelled_count + length l)

  cancel_all-AllCancelled :
      (l : List (PendingTask T)) (s : ExecutionService T) → AllCancelled l s (cancel_all l s)
  unfolding cancel_all
  cancel_all-AllCancelled [] s = record {
    submitted = refl;
    completed = refl;
    failed = refl;
    cancelled = omega arith;
  }
  cancel_all-AllCancelled (first ∷ rest) s =
      let h = cancel_all-AllCancelled rest (record s {
        results =
            insert first.task_id (result_of first.task_id cancelled "cancelled by shutdown")
              s.results;
        metrics = record (s.metrics) { cancelled_count = u64 (s.metrics.cancelled_count + 1) };
      }) in
      record {
        submitted = h.submitted;
        completed = h.completed;
        failed = h.failed;
        cancelled = omega (arith, h.cancelled);
      }

  shutdown-Accounts :
      (taken : ℕ) (s : ExecutionService T) → Accounts taken s → Accounts taken (begin_shutdown s).0
  unfolding begin_shutdown
  shutdown-Accounts taken s h =
      if_cases (λ (r : ExecutionService T × Bool). Accounts taken r.0) s.shutting_down (λ _. h)
        (λ _.
          let c = cancel_all-AllCancelled s.pending (record s { shutting_down = true }) in
          record {
            pending = refl;
            total = omega (arith, h.total, c.submitted, c.completed, c.failed, c.cancelled);
          })

  pub Use-Accounts :
      {s s' : ExecutionService T} (taken : ℕ) → Use s s' → Accounts taken s → Accounts taken s'
  unfolding configure_policy cancel
  Use-Accounts {s = s} taken (configures policy) h = record { pending = h.pending; total = h.total }
  Use-Accounts {s = s} taken (submits task few) h = submit_task-Accounts taken s task h
  Use-Accounts {s = s} taken (cancels task_id) h =
      if_cases (λ (r : ExecutionService T × Bool). Accounts taken r.0) s.shutting_down (λ _. h)
        (λ _.
          cancel_in-Accounts taken s task_id (erase_first task_id s.pending)
            (erase_first-Erasure task_id s.pending) h)
  Use-Accounts {s = s} taken shuts_down h = shutdown-Accounts taken s h

  pub Uses-Accounts :
      {s s' : ExecutionService T} (taken : ℕ) → Uses s s' → Accounts taken s → Accounts taken s'
  Uses-Accounts taken here h = h
  Uses-Accounts taken (then_use before use_) h =
      Use-Accounts taken use_ (Uses-Accounts taken before h)

  finish-Accounts :
      (taken : ℕ) (s : ExecutionService T) (task_id : ℕ) (end : TaskEnd)
      → Accounts (suc taken) s
      → Accounts taken (finish s (outcome_of task_id end))
  unfolding finish
  finish-Accounts taken s task_id returned h = record {
    pending = h.pending;
    total = omega (arith, h.total);
  }
  finish-Accounts taken s task_id (threw what) h = record {
    pending = h.pending;
    total = omega (arith, h.total);
  }
  finish-Accounts taken s task_id threw_unknown h = record {
    pending = h.pending;
    total = omega (arith, h.total);
  }

  running-Accounts :
      (taken : ℕ) (s : ExecutionService T) (task_id : ℕ)
      → Accounts taken s
      → Accounts taken (mark_running s task_id)
  unfolding mark_running
  running-Accounts taken s task_id h = record { pending = h.pending; total = h.total }

  claim-Accounts : (s : ExecutionService T) → Accounts 0 s → Accounts (length s.pending) (claim s)
  unfolding claim
  claim-Accounts s h = record { pending = refl; total = omega (arith, h.total) }

  module _ {W : Type 0} (run : T → ExecutionService T → W → TaskEnd × ExecutionService T × W)
      (uses : (task : T) (s : ExecutionService T) (w : W) → Uses s (run task s w).1) where
    -- However the service was used since it was made: by operations, by drains, and by the tasks
    -- that a drain runs.
    pub data Reach : ExecutionService T → Type 0 where
      fresh : Reach new_service
      used : {s t : ExecutionService T} → Reach s → Use s t → Reach t
      drained : {s : ExecutionService T} (w : W) → Reach s → Reach (drain run s w).0

    run_tasks-Accounts :
        (tasks : List (PendingTask T)) (s : ExecutionService T) (w : W)
        → Accounts (length tasks) s
        → Accounts 0 (run_tasks run tasks s w).0
    unfolding run_tasks
    run_tasks-Accounts [] s w h = h
    run_tasks-Accounts (first ∷ rest) s w h =
        let s₁ = mark_running s first.task_id in
        let (end, s₂, w₂) = run first.task s₁ w in
        run_tasks-Accounts rest (finish s₂ (outcome_of first.task_id end)) w₂ (
          finish-Accounts (length rest) s₂ first.task_id end (
            Uses-Accounts (suc (length rest)) (uses first.task s₁ w)
              (running-Accounts (suc (length rest)) s first.task_id h)))

    -- However the service was used since it was made, with fewer than 2^64 tasks, which use it by
    -- its operations while they run: every task that was submitted is pending, cancelled, completed or failed,
    -- each counted once (modulo 2^64), and the metrics have the number of the pending ones.
    pub Reach-Accounts : {s : ExecutionService T} → Reach s → Accounts 0 s
    unfolding new_service drain
    Reach-Accounts fresh = record { pending = refl; total = refl }
    Reach-Accounts (used r u) = Use-Accounts 0 u (Reach-Accounts r)
    Reach-Accounts (drained {s} w r) =
        run_tasks-Accounts s.pending (claim s) w (claim-Accounts s (Reach-Accounts r))
