-- ===== src/Execution/Results.antt =====
-- What a drain reports, and that a reported result is final.
use mathlib.Core.List.{append-nil}
use framekit.Base.{
  ℕ, ◌≡◌, ◌≢◌, refl, ap, subst, sym, ◌∙◌, Bool, true, false, true-ne-false, List, [], ◌∷◌, ◌++◌,
  some, All, beq_refl, nat_eq, arith, some_injective,
}
use framekit.Base.Assoc.{lookup, insert, lookup-insert}
use framekit.Execution.{
  ExecutionService, ExecutionTaskResult, ExecutionTaskState, PendingTask, TaskEnd, returned, threw,
  threw_unknown, running, completed, cancelled, failed, result_of, is_queued, outcome_of,
  mark_running, finish, claim, run_tasks, drain, find_result, new_service,
}
use framekit.Execution.Uses.{Use, Uses, here, then_use, gone, Reach, fresh, used, drained}
use framekit.Execution.Tracked.{
  Tracked, Stays, Stays-trans, Waiting, lookup-other, waiting-ne, settle-Tracked, All-other,
  none-ne-some,
}
use framekit.Execution.Kept.{Kept, Use-Kept}

abbrev pub is_final : ExecutionTaskState → Bool
is_final completed = true
is_final cancelled = true
is_final failed = true
is_final _ = false

final-queued : (state : ExecutionTaskState) → is_final state ≡ true → is_queued state ≡ false
final-queued completed h = refl
final-queued _ h = grind (arith, h)

-- Final results stay as they are.
abbrev pub FinalStays : (before after : List (ℕ × ExecutionTaskResult)) → Type 0
FinalStays before after =
    (id : ℕ) (r : ExecutionTaskResult)
    → lookup id before ≡ some r
    → is_final r.state ≡ true
    → lookup id after ≡ some r

abbrev pub has_run : ExecutionTaskState → Bool
has_run completed = true
has_run failed = true
has_run _ = false

abbrev pub Reported : List (ℕ × ExecutionTaskResult) → ExecutionTaskResult → Type 0
Reported results r = (lookup r.task_id results ≡ some r) × (has_run r.state ≡ true)

abbrev pub result_ids : List ExecutionTaskResult → List ℕ
result_ids [] = []
result_ids (r ∷ l) = r.task_id ∷ result_ids l

outcome-final : (id : ℕ) (end : TaskEnd) → is_final (outcome_of id end).state ≡ true
outcome-final id returned = refl
outcome-final id (threw what) = refl
outcome-final id threw_unknown = refl

outcome-run : (id : ℕ) (end : TaskEnd) → has_run (outcome_of id end).state ≡ true
outcome-run id returned = refl
outcome-run id (threw what) = refl
outcome-run id threw_unknown = refl

outcome-id : (id : ℕ) (end : TaskEnd) → (outcome_of id end).task_id ≡ id
outcome-id id returned = refl
outcome-id id (threw what) = refl
outcome-id id threw_unknown = refl

FinalStays-trans :
    (a b c : List (ℕ × ExecutionTaskResult)) → FinalStays a b → FinalStays b c → FinalStays a c
FinalStays-trans a b c f g id r found final = g id r (f id r found final) final

Stays-final : (a b : List (ℕ × ExecutionTaskResult)) → Stays a b → FinalStays a b
Stays-final a b h id r found final = h id r found (final-queued r.state final)

module _ {T : Type 0} where
  Uses-Kept :
      {s s' : ExecutionService T} (claimed : List (PendingTask T))
      → Uses s s'
      → Tracked (claimed ++ s.pending) s.results s.next_task_id
      → Kept claimed s s'
  Uses-Kept claimed here h = record { tracked = h; stays = λ id r found off. found }
  Uses-Kept {s = s} {s' = s'} claimed (then_use {t} before use_) h =
      let k = Uses-Kept claimed before h in
      let k' = Use-Kept claimed use_ k.tracked in
      record {
        tracked = k'.tracked;
        stays = Stays-trans s.results t.results s'.results k.stays k'.stays;
      }

  -- A task that runs is finished: the waiting tasks and the final results stay.
  finish-Tracked :
      (l : List (PendingTask T)) (m : List (ℕ × ExecutionTaskResult)) (n k : ℕ)
      (v : ExecutionTaskResult)
      → lookup k m ≡ some (result_of k running "running")
      → Tracked l m n
      → Tracked l (insert k v m) n × FinalStays m (insert k v m)
  finish-Tracked l m n k v runs h = (
    record {
      apart = h.apart;
      waiting = All-other k v m l (running-other l h.waiting) h.waiting;
      below = h.below;
      unknown = λ id le.
          lookup-other k id v m
            (λ same. none-ne-some (sym (h.unknown id le) ∙ ap (λ i. lookup i m) (sym same) ∙ runs))
          ∙ h.unknown id le;
    },
    λ id r found final.
        lookup-other k id v m (λ same.
          running-not-final r (some_injective (sym runs ∙ ap (λ i. lookup i m) same ∙ found)) final)
        ∙ found,
  )
    where
      running-other : (l : List (PendingTask T)) → All (Waiting m) l → All (λ y. k ≢ y.task_id) l
      running-other [] h = tt
      running-other (x ∷ l) h = (
        λ same. waiting-ne x.task_id m k (result_of k running "running") h.0 runs refl (sym same),
        running-other l h.1,
      )

      running-not-final :
          (r : ExecutionTaskResult)
          → result_of k running "running" ≡ r
          → is_final r.state ≡ true
          → ⊥
      running-not-final r same final =
          true-ne-false (sym final ∙ ap (λ (x : ExecutionTaskResult). is_final x.state) (sym same))

  outcome-Tracked :
      (l : List (PendingTask T)) (m : List (ℕ × ExecutionTaskResult)) (n k : ℕ) (end : TaskEnd)
      → lookup k m ≡ some (result_of k running "running")
      → Tracked l m n
      → let v = outcome_of k end in
        Tracked l (insert v.task_id v m) n
        × FinalStays m (insert v.task_id v m)
        × (lookup v.task_id (insert v.task_id v m) ≡ some v)
  outcome-Tracked l m n k end runs h =
      let v = outcome_of k end in
      let (tracked, stays) =
        finish-Tracked l m n v.task_id v
          (subst (λ i. lookup i m ≡ some (result_of i running "running")) (sym (outcome-id k end))
            runs)
          h in
      (tracked, stays, lookup-insert v.task_id v.task_id v m ∙ rw (beq_refl v.task_id))

  abbrev pub ids : List (PendingTask T) → List ℕ
  ids [] = []
  ids (x ∷ l) = x.task_id ∷ ids l

  module _ {W : Type 0} (run : T → ExecutionService T → W → TaskEnd × ExecutionService T × W)
      (uses : (task : T) (s : ExecutionService T) (w : W) → Uses s (run task s w).1) where
    pub record Ran (tasks : List (PendingTask T)) (s s' : ExecutionService T)
        (reports : List ExecutionTaskResult) : Type 0 where
      pub tracked : Tracked s'.pending s'.results s'.next_task_id
      pub stays : FinalStays s.results s'.results
      pub in_order : result_ids reports ≡ ids tasks
      pub reported : All (Reported s'.results) reports

    run_tasks-Ran :
        (tasks : List (PendingTask T)) (s : ExecutionService T) (w : W)
        → Tracked (tasks ++ s.pending) s.results s.next_task_id
        → let (s', w', reports) = run_tasks run tasks s w in Ran tasks s s' reports
    unfolding run_tasks mark_running finish
    run_tasks-Ran [] s w h = record {
      tracked = h;
      stays = λ id r found final. found;
      in_order = refl;
      reported = tt;
    }
    run_tasks-Ran (first ∷ rest) s w h =
        let k = first.task_id in
        let v = result_of k running "running" in
        let s₁ = mark_running s k in
        let (end, s₂, w₂) = run first.task s₁ w in
        let outcome = outcome_of k end in
        let s₃ = finish s₂ outcome in
        let (waiting, marked) =
          settle-Tracked v s.results s.next_task_id (gone {t = first} {l = rest ++ s.pending} refl)
            h in
        let kept = Uses-Kept rest (uses first.task s₁ w) waiting in
        let runs : lookup k s₂.results ≡ some v =
          kept.stays k v (lookup-insert k k v s.results ∙ rw (beq_refl k)) refl in
        let (finished, stays, reported) =
          outcome-Tracked (rest ++ s₂.pending) s₂.results s₂.next_task_id k end runs kept.tracked in
        let later = run_tasks-Ran rest s₃ w₂ finished in
        let s' = (run_tasks run rest s₃ w₂).0 in
        record {
          tracked = later.tracked;
          stays =
              FinalStays-trans s.results s₃.results s'.results
                (FinalStays-trans s.results s₂.results s₃.results
                  (FinalStays-trans s.results s₁.results s₂.results
                    (Stays-final s.results s₁.results marked)
                    (Stays-final s₁.results s₂.results kept.stays))
                  stays)
                later.stays;
          in_order =
              ap (λ i. i ∷ result_ids (run_tasks run rest s₃ w₂).2) (outcome-id k end)
              ∙ ap (◌∷◌ k) later.in_order;
          reported = (
            (later.stays outcome.task_id outcome reported (outcome-final k end), outcome-run k end),
            later.reported,
          );
        }

    claim-Tracked :
        (s : ExecutionService T)
        → Tracked s.pending s.results s.next_task_id
        → Tracked (s.pending ++ []) s.results s.next_task_id
    claim-Tracked s h =
        subst (λ (l : List (PendingTask T)). Tracked l s.results s.next_task_id)
          (sym (append-nil s.pending)) h

    drain-Ran :
        (s : ExecutionService T) (w : W)
        → Tracked s.pending s.results s.next_task_id
        → let (s', w', reports) = drain run s w in Ran s.pending s s' reports
    unfolding drain claim
    drain-Ran s w h =
        let r = run_tasks-Ran s.pending (claim s) w (claim-Tracked s h) in
        record {
          tracked = r.tracked;
          stays = r.stays;
          in_order = r.in_order;
          reported = r.reported;
        }

    Reach-Tracked :
        {s : ExecutionService T} → Reach run uses s → Tracked s.pending s.results s.next_task_id
    unfolding new_service lookup
    Reach-Tracked fresh = record { apart = tt; waiting = tt; below = tt; unknown = λ id le. refl }
    Reach-Tracked (used r u) = (Use-Kept [] u (Reach-Tracked r)).tracked
    Reach-Tracked (drained {s} w r) = (drain-Ran s w (Reach-Tracked r)).tracked

    -- A drain of a service that was used in any way since it was made, with fewer than 2^64 tasks,
    -- which use it by its operations while they run: it reports on the tasks that were pending, each once and in their
    -- order, each as completed or failed; the service has these results, and results that were
    -- final before have stayed.
    pub drain_lem :
        (s : ExecutionService T) (w : W)
        → Reach run uses s
        → let (s', w', reports) = drain run s w in
          (result_ids reports ≡ ids s.pending)
          × All (Reported s'.results) reports
          × FinalStays s.results s'.results
    drain_lem s w r = let h = drain-Ran s w (Reach-Tracked r) in (h.in_order, h.reported, h.stays)

    -- What may happen to a service later.
    pub data Later (s : ExecutionService T) : ExecutionService T → Type 0 where
      now : Later s s
      after_use : {t u : ExecutionService T} → Later s t → Use t u → Later s u
      after_drain : {t : ExecutionService T} (w : W) → Later s t → Later s (drain run t w).0

    Reach-Later : {s t : ExecutionService T} → Reach run uses s → Later s t → Reach run uses t
    Reach-Later r now = r
    Reach-Later r (after_use l u) = used (Reach-Later r l) u
    Reach-Later r (after_drain w l) = drained w (Reach-Later r l)

    -- The result of a task that is completed, failed or cancelled never changes again, whatever
    -- happens to the service later, with fewer than 2^64 tasks, which use it by its operations while
    -- they run.
    pub find_result-final :
        {s s' : ExecutionService T} (task_id : ℕ) (r : ExecutionTaskResult)
        → Reach run uses s
        → Later s s'
        → find_result s task_id ≡ some r
        → is_final r.state ≡ true
        → find_result s' task_id ≡ some r
    unfolding find_result
    find_result-final task_id r reach now found final = found
    find_result-final task_id r reach (after_use {t} l u) found final =
        (Use-Kept [] u (Reach-Tracked (Reach-Later reach l))).stays task_id r
          (find_result-final task_id r reach l found final) (final-queued r.state final)
    find_result-final task_id r reach (after_drain {t} w l) found final =
        (drain-Ran t w (Reach-Tracked (Reach-Later reach l))).stays task_id r
          (find_result-final task_id r reach l found final) final
