-- ===== src/Execution/Closed.antt =====
-- A service that is shutting down.
use framekit.Base.{
  ℕ, ◌≡◌, refl, ap, subst, sym, ◌∙◌, Bool, true, false, true-ne-false, List, [], ◌∷◌, Option, none,
  some, if_cases,
}
use framekit.Execution.{
  ExecutionService, ExecutionTaskResult, PendingTask, TaskEnd, new_service, configure_policy,
  submit_task, reject, enqueue, cancel, cancel_in, erase_first, begin_shutdown, cancel_all,
  mark_running, finish, outcome_of, claim, run_tasks, drain, result_of, rejected,
}
use framekit.Execution.Uses.{
  Use, configures, submits, cancels, shuts_down, Uses, here, then_use, Reach, fresh, used, drained,
}
use framekit.Execution.Results.{Later, now, after_use, after_drain}

module _ {T : Type 0} where
  -- Once it is shutting down, a service has nothing pending.
  abbrev Closed : ExecutionService T → Type 0
  Closed s = s.shutting_down ≡ true → s.pending ≡ []

  abbrev Shut : ExecutionService T → Type 0
  Shut s = (s.shutting_down ≡ true) × (s.pending ≡ [])

  enqueue-Closed :
      (s : ExecutionService T) (task : T) → s.shutting_down ≡ false → Closed (enqueue s task).0
  unfolding enqueue
  enqueue-Closed s task open_ shut = absurd (true-ne-false (sym shut ∙ open_))

  cancel_in-Closed :
      (s : ExecutionService T) (id : ℕ) (found : Option (List (PendingTask T)))
      → s.shutting_down ≡ false
      → Closed (cancel_in s id found).0
  unfolding cancel_in
  cancel_in-Closed s id none open_ shut = absurd (true-ne-false (sym shut ∙ open_))
  cancel_in-Closed s id (some kept) open_ shut = absurd (true-ne-false (sym shut ∙ open_))

  Use-Closed : {s s' : ExecutionService T} → Use s s' → Closed s → Closed s'
  unfolding configure_policy submit_task reject cancel begin_shutdown
  Use-Closed (configures policy) h = h
  Use-Closed (submits none few) h = h
  Use-Closed {s = s} (submits (some task) few) h =
      if_cases (λ (r : ExecutionService T × ExecutionTaskResult). Closed r.0) s.shutting_down
        (λ _. h) (λ open_. enqueue-Closed s task open_)
  Use-Closed {s = s} (cancels id) h =
      if_cases (λ (r : ExecutionService T × Bool). Closed r.0) s.shutting_down (λ _. h)
        (λ open_. cancel_in-Closed s id (erase_first id s.pending) open_)
  Use-Closed {s = s} shuts_down h =
      if_cases (λ (r : ExecutionService T × Bool). Closed r.0) s.shutting_down (λ _. h)
        (λ open_ shut. refl)

  Use-Shut : {s s' : ExecutionService T} → Use s s' → Shut s → Shut s'
  unfolding configure_policy submit_task reject cancel begin_shutdown
  Use-Shut (configures policy) h = h
  Use-Shut (submits none few) h = h
  Use-Shut {s = s} (submits (some task) few) h =
      if_cases (λ (r : ExecutionService T × ExecutionTaskResult). Shut r.0) s.shutting_down (λ _. h)
        (λ open_. absurd (true-ne-false (sym h.0 ∙ open_)))
  Use-Shut {s = s} (cancels id) h =
      if_cases (λ (r : ExecutionService T × Bool). Shut r.0) s.shutting_down (λ _. h)
        (λ open_. absurd (true-ne-false (sym h.0 ∙ open_)))
  Use-Shut {s = s} shuts_down h =
      if_cases (λ (r : ExecutionService T × Bool). Shut r.0) s.shutting_down (λ _. h)
        (λ open_. absurd (true-ne-false (sym h.0 ∙ open_)))

  shutting-cancel_all :
      (l : List (PendingTask T)) (s : ExecutionService T)
      → (cancel_all l s).shutting_down ≡ s.shutting_down
  unfolding cancel_all
  shutting-cancel_all [] s = refl
  shutting-cancel_all (x ∷ l) s = shutting-cancel_all l _

  begin_shutdown-Shut : (s : ExecutionService T) → Closed s → Shut (begin_shutdown s).0
  unfolding begin_shutdown
  begin_shutdown-Shut s closed =
      if_cases (λ (r : ExecutionService T × Bool). Shut r.0) s.shutting_down
        (λ shut. (shut, closed shut))
        (λ open_. (shutting-cancel_all s.pending (record s { shutting_down = true }), refl))

  Uses-Closed : {s s' : ExecutionService T} → Uses s s' → Closed s → Closed s'
  Uses-Closed here h = h
  Uses-Closed (then_use before use_) h = Use-Closed use_ (Uses-Closed before h)

  module _ {W : Type 0} (run : T → ExecutionService T → W → TaskEnd × ExecutionService T × W)
      (uses : (task : T) (s : ExecutionService T) (w : W) → Uses s (run task s w).1) where
    run_tasks-Closed :
        (tasks : List (PendingTask T)) (s : ExecutionService T) (w : W)
        → Closed s
        → Closed (run_tasks run tasks s w).0
    unfolding run_tasks mark_running finish
    run_tasks-Closed [] s w h = h
    run_tasks-Closed (first ∷ rest) s w h =
        let s₁ = mark_running s first.task_id in
        let (end, s₂, w₂) = run first.task s₁ w in
        run_tasks-Closed rest (finish s₂ (outcome_of first.task_id end)) w₂
          (Uses-Closed (uses first.task s₁ w) h)

    Reach-Closed : {s : ExecutionService T} → Reach run uses s → Closed s
    unfolding drain claim new_service
    Reach-Closed fresh = λ shut. refl
    Reach-Closed (used r u) = Use-Closed u (Reach-Closed r)
    Reach-Closed (drained {s} w r) = run_tasks-Closed s.pending (claim s) w (λ _. refl)

    drain-Shut : (s : ExecutionService T) (w : W) → Shut s → drain run s w ≡ (claim s, w, [])
    unfolding drain run_tasks
    drain-Shut s w h = ap (λ l. run_tasks run l (claim s) w) h.1

    Later-Shut : {s s' : ExecutionService T} → Later run uses s s' → Shut s → Shut s'
    unfolding claim
    Later-Shut now h = h
    Later-Shut (after_use l u) h = Use-Shut u (Later-Shut l h)
    Later-Shut (after_drain {t} w l) h =
        subst (λ (r : ExecutionService T × W × List ExecutionTaskResult). Shut r.0)
          (sym (drain-Shut t w (Later-Shut l h))) ((Later-Shut l h).0, refl)

    -- From the moment that a service is shutting down, whatever happens to it later, with fewer than
    -- 2^64 tasks, which use it by its operations while they run: it stays so, nothing is pending, every submission is rejected, and a drain runs nothing.
    pub shutdown-final :
        {s s' : ExecutionService T} (task : T) (w : W)
        → Reach run uses s
        → Later run uses (begin_shutdown s).0 s'
        → (s'.shutting_down ≡ true)
          × (s'.pending ≡ [])
          × ((submit_task s' (some task)).1 ≡ result_of 0 rejected "service is shutting down")
          × (drain run s' w ≡ (claim s', w, []))
    unfolding submit_task reject
    shutdown-final {s = s} {s' = s'} task w r l =
        let h = Later-Shut l (begin_shutdown-Shut s (Reach-Closed r)) in
        (h.0, h.1, rw h.0, drain-Shut s' w h)
