-- ===== src/Execution/Kept.antt =====
-- What the operations do to the results: those that are no longer `queued` stay.
use mathlib.Core.List.{append_assoc, append-nil}
use framekit.Base.{
  ℕ, ◌+◌, ◌<◌, refl, ap, subst, sym, ◌∙◌, Bool, true, List, [], ◌∷◌, ◌++◌, Option, none, some,
  All-append, All-mono, u64, nat_eq, beq_refl, if_cases, arith,
}
use framekit.Base.Assoc.{lookup, insert, lookup-insert}
use framekit.Execution.{
  ExecutionService, ExecutionTaskResult, PendingTask, queued, cancelled, configure_policy,
  submit_task, reject, enqueue, erase_first, cancel_in, cancel, cancel_all, begin_shutdown,
  result_of,
}
use framekit.Execution.Uses.{
  Use, configures, submits, cancels, shuts_down, gone, Erasure, erase_first-Erasure,
}
use framekit.Execution.Tracked.{
  Tracked, Stays, Stays-trans, none-ne-some, lookup-other, All-other, Apart-snoc, Erased-append,
  settle-Tracked,
}

module _ {T : Type 0} where
  pub record Kept (claimed : List (PendingTask T)) (s s' : ExecutionService T) : Type 0 where
    pub tracked : Tracked (claimed ++ s'.pending) s'.results s'.next_task_id
    pub stays : Stays s.results s'.results

  enqueue-Kept :
      (claimed : List (PendingTask T)) (s : ExecutionService T) (task : T)
      → s.next_task_id + 1 < 18446744073709551616
      → Tracked (claimed ++ s.pending) s.results s.next_task_id
      → Kept claimed s (enqueue s task).0
  unfolding enqueue
  enqueue-Kept claimed s task few h =
      let l = claimed ++ s.pending in
      let n = s.next_task_id in
      let x : PendingTask T = record { task_id = n; task = task } in
      let v = result_of n queued "queued" in
      record {
        tracked =
            subst (λ (k : List (PendingTask T)). Tracked k (insert n v s.results) (u64 (n + 1)))
              (append_assoc claimed s.pending (x ∷ []))
              (record {
                apart =
                    Apart-snoc l x h.apart
                      (All-mono _ _ l (λ y lt same. omega (arith, lt, same)) h.below);
                waiting =
                    All-append _ l (x ∷ [])
                      (All-other n v s.results l
                        (All-mono _ _ l (λ y lt same. omega (arith, lt, same)) h.below) h.waiting)
                      (lookup-insert n n v s.results ∙ rw (beq_refl n), tt);
                below =
                    All-append _ l (x ∷ [])
                      (All-mono _ _ l (λ y lt. omega (arith, lt, few)) h.below)
                      (omega (arith, few), tt);
                unknown = λ id le.
                    lookup-other n id v s.results (λ same. omega (arith, le, few, same))
                    ∙ h.unknown id (omega (arith, le, few));
              });
        stays = λ id r found off.
            lookup-other n id v s.results (λ same.
              none-ne-some
                (sym (h.unknown n (omega arith)) ∙ ap (λ i. lookup i s.results) same ∙ found))
            ∙ found;
      }

  cancel_in-Kept :
      (claimed : List (PendingTask T)) (s : ExecutionService T) (task_id : ℕ)
      (found : Option (List (PendingTask T)))
      → Erasure task_id s.pending found
      → Tracked (claimed ++ s.pending) s.results s.next_task_id
      → Kept claimed s (cancel_in s task_id found).0
  unfolding cancel_in
  cancel_in-Kept claimed s task_id none e h = record {
    tracked = h;
    stays = λ id r found off. found;
  }
  cancel_in-Kept claimed s task_id (some kept) e h =
      let (tracked, stays) =
        settle-Tracked (result_of task_id cancelled "cancelled before execution") s.results
          s.next_task_id (Erased-append claimed e) h in
      record { tracked = tracked; stays = stays }

  cancel_all-Kept :
      (claimed l : List (PendingTask T)) (s : ExecutionService T)
      → Tracked (claimed ++ l) s.results s.next_task_id
      → Tracked claimed (cancel_all l s).results (cancel_all l s).next_task_id
        × Stays s.results (cancel_all l s).results
  unfolding cancel_all
  cancel_all-Kept claimed [] s h = (
    subst (λ (k : List (PendingTask T)). Tracked k s.results s.next_task_id) (append-nil claimed) h,
    λ id r found off. found,
  )
  cancel_all-Kept claimed (x ∷ l) s h =
      let v = result_of x.task_id cancelled "cancelled by shutdown" in
      let (tracked, stays) =
        settle-Tracked v s.results s.next_task_id
          (Erased-append claimed (gone {t = x} {l = l} refl)) h in
      let (later, stays') =
        cancel_all-Kept claimed l
          (record s {
            results = insert x.task_id v s.results;
            metrics = record (s.metrics) { cancelled_count = u64 (s.metrics.cancelled_count + 1) };
          })
          tracked in
      (later, Stays-trans s.results (insert x.task_id v s.results) _ stays stays')

  -- No operation changes a result that is no longer `queued`, and the tasks that are claimed by a
  -- drain keep waiting for it.
  pub Use-Kept :
      {s s' : ExecutionService T} (claimed : List (PendingTask T))
      → Use s s'
      → Tracked (claimed ++ s.pending) s.results s.next_task_id
      → Kept claimed s s'
  unfolding configure_policy submit_task reject cancel begin_shutdown
  Use-Kept claimed (configures policy) h = record { tracked = h; stays = λ id r found off. found }
  Use-Kept claimed (submits none few) h = record { tracked = h; stays = λ id r found off. found }
  Use-Kept {s = s} claimed (submits (some task) few) h =
      if_cases (λ (r : ExecutionService T × ExecutionTaskResult). Kept claimed s r.0)
        s.shutting_down (λ _. record { tracked = h; stays = λ id r found off. found })
        (λ _. enqueue-Kept claimed s task few h)
  Use-Kept {s = s} claimed (cancels task_id) h =
      if_cases (λ (r : ExecutionService T × Bool). Kept claimed s r.0) s.shutting_down
        (λ _. record { tracked = h; stays = λ id r found off. found })
        (λ _.
          cancel_in-Kept claimed s task_id (erase_first task_id s.pending)
            (erase_first-Erasure task_id s.pending) h)
  Use-Kept {s = s} claimed shuts_down h =
      if_cases (λ (r : ExecutionService T × Bool). Kept claimed s r.0) s.shutting_down
        (λ _. record { tracked = h; stays = λ id r found off. found })
        (λ _.
          let (tracked, stays) =
            cancel_all-Kept claimed s.pending (record s { shutting_down = true }) h in
          let s' = cancel_all s.pending (record s { shutting_down = true }) in
          record {
            tracked =
                subst (λ (k : List (PendingTask T)). Tracked k s'.results s'.next_task_id)
                  (sym (append-nil claimed)) tracked;
            stays = stays;
          })
