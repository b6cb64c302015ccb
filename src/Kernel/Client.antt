-- ===== src/Kernel/Client.antt =====
-- The kernel as a client sees it: three phases, and which answers lead from one to the other.
use framekit.Base.{
  ℕ, ◌≡◌, ◌≢◌, refl, sym, subst, Bool, true, false, String, List, [], ◌∷◌, ◌++◌, Option,
}
use framekit.Lifecycle.{LifecycleState, running, stopped, faulted, new_machine, same_state}
use framekit.Lifecycle.Graph
use framekit.Lifecycle.History
use framekit.Events.{EventBus, EventContext}
use framekit.Events.Dispatch.{Reaction}
use framekit.Services.{ServiceKey, ServiceEntry}
use framekit.Modules.{ModuleSpec}
use framekit.Kernel.{
  Kernel, Outside, CallbackStep, ModuleLifecyclePhase, ShutdownDeferredEventPolicy, new_kernel,
  set_bootstrap_step, set_initialize_step, set_module_stop_handler, set_module_lifecycle_handler,
  set_diagnostics_flush_step, set_event_bus, set_shutdown_deferred_event_policy,
  add_platform_teardown_step, record_started_modules, configure_modules,
}
use framekit.Kernel.Actions.{Action}
use framekit.Kernel.Startup.{start_kernel}
use framekit.Kernel.Shutdown.{stop_running, stop_kernel}
use framekit.Kernel.Ends.{InState, At, Outcome}
use framekit.Kernel.Phases.{start_kernel-Ends, start_kernel-running, stop_running-Ends}

-- The phases between which the kernel moves, and the state of the lifecycle in each.
pub data Phase : Type 0 where
  idle live broken : Phase

abbrev pub state_of : Phase → LifecycleState
state_of idle = stopped
state_of live = running
state_of broken = faulted

pub data Request : Type 0 where
  configuring starting halting : Request

-- What a client can see: a request, its answer, and the phase it leads to.
pub data Answers : Phase → Request → Bool → Phase → Type 0 where
  configured : {p : Phase} (answer : Bool) → Answers p configuring answer p
  started : {p : Phase} → p ≢ live → Answers p starting true live
  start_failed : {p : Phase} → p ≢ live → Answers p starting false broken
  already_live : Answers live starting false live
  at_rest : Answers idle halting true idle
  halted : {p : Phase} → p ≢ idle → Answers p halting true idle
  halt_failed : {p : Phase} → p ≢ idle → Answers p halting false broken

pub data Walk (from : Phase) : List (Request × Bool) → Phase → Type 0 where
  here : Walk from [] from
  next :
      {seen : List (Request × Bool)} {p q : Phase} {request : Request} {answer : Bool}
      → Walk from seen p
      → Answers p request answer q
      → Walk from (seen ++ (request, answer) ∷ []) q

pub data Operation (S H P W : Type 0) : Type 0 where
  on_bootstrap : Option (CallbackStep S H P W) → Operation S H P W
  on_initialize : Option (CallbackStep S H P W) → Operation S H P W
  on_module_stop : Option (String → CallbackStep S H P W) → Operation S H P W
  on_module_lifecycle :
      Option (String → ModuleLifecyclePhase → CallbackStep S H P W) → Operation S H P W
  on_diagnostics_flush : Option (Outside S H P W → Outside S H P W) → Operation S H P W
  use_event_bus : Option (EventBus H P) → Operation S H P W
  settle_by : ShutdownDeferredEventPolicy → ℕ → Operation S H P W
  on_platform_teardown : String → Option (CallbackStep S H P W) → Operation S H P W
  have_started : List String → Operation S H P W
  use_modules : List ModuleSpec → Operation S H P W
  do_start : Operation S H P W
  do_stop : Operation S H P W

module _ {S H P W : Type 0} where
  abbrev pub request_of : Operation S H P W → Request
  request_of do_start = starting
  request_of do_stop = halting
  request_of _ = configuring

  module _ (diagnostics configuration timing : S × ℕ)
      (invoke : H → EventContext P → EventBus H P → W → Reaction H P W)
      (visit : List (ServiceKey × ServiceEntry S) → List (ServiceKey × ServiceEntry S)) where
    abbrev pub perform : Operation S H P W → Action S H P W
    perform (on_bootstrap step) k = (set_bootstrap_step k step, true)
    perform (on_initialize step) k = (set_initialize_step k step, true)
    perform (on_module_stop handler) k = (set_module_stop_handler k handler, true)
    perform (on_module_lifecycle handler) k = (set_module_lifecycle_handler k handler, true)
    perform (on_diagnostics_flush step) k = (set_diagnostics_flush_step k step, true)
    perform (use_event_bus bus) k = (set_event_bus k bus, true)
    perform (settle_by policy limit) k = (set_shutdown_deferred_event_policy k policy limit, true)
    perform (on_platform_teardown name step) k = (add_platform_teardown_step k name step, true)
    perform (have_started order) k = (record_started_modules k order, true)
    perform (use_modules modules) k = configure_modules k modules
    perform do_start k = start_kernel diagnostics configuration timing k
    perform do_stop k = stop_kernel invoke visit k

    -- What a client does with a kernel, and the answers that it gets.
    unfoldable pub perform_all :
        List (Operation S H P W)
        → Kernel S H P W × List (Request × Bool)
        → Kernel S H P W × List (Request × Bool)
    perform_all [] r = r
    perform_all (operation ∷ rest) (k, seen) =
        let (k', answer) = perform operation k in
        perform_all rest (k', seen ++ (request_of operation, answer) ∷ [])

    -- What the client may see of the request when the kernel was in phase `p`.
    abbrev Shown : Phase → Request → Kernel S H P W × Bool → Type 0
    Shown p request (k, answer) = (q : Phase) × Answers p request answer q × At (state_of q) k

    start_ended :
        (p : Phase) (r : Kernel S H P W × Bool)
        → p ≢ live
        → Outcome (At running) (At faulted) r
        → Shown p starting r
    start_ended p (k, true) off h = (live, started off, h)
    start_ended p (k, false) off h = (broken, start_failed off, h)

    stop_ended :
        (p : Phase) (r : Kernel S H P W × Bool)
        → p ≢ idle
        → Outcome (At stopped) (At faulted) r
        → Shown p halting r
    stop_ended p (k, true) on h = (idle, halted on, h)
    stop_ended p (k, false) on h = (broken, halt_failed on, h)

    start-Shown :
        (p : Phase) (k : Kernel S H P W) → At (state_of p) k → Shown p starting (perform do_start k)
    start-Shown idle k h =
        start_ended idle (start_kernel diagnostics configuration timing k) (λ e. cc)
          ((start_kernel-Ends diagnostics configuration timing stopped Graph.boot).at k h)
    start-Shown broken k h =
        start_ended broken (start_kernel diagnostics configuration timing k) (λ e. cc)
          ((start_kernel-Ends diagnostics configuration timing faulted Graph.retry).at k h)
    start-Shown live k h =
        subst (Shown live starting)
          (sym (start_kernel-running diagnostics configuration timing k h)) (live, already_live, h)

    pub stop_beyond :
        (k : Kernel S H P W) (s : LifecycleState)
        → At s k
        → same_state s stopped ≡ false
        → stop_kernel invoke visit k ≡ stop_running invoke visit k
    unfolding stop_kernel
    stop_beyond k s h e = rw (subst (λ x. same_state x stopped ≡ false) (sym h.state) e)

    stop_at_rest : (k : Kernel S H P W) → At stopped k → stop_kernel invoke visit k ≡ (k, true)
    unfolding stop_kernel
    stop_at_rest k h = rw (subst (λ x. same_state x stopped ≡ true) (sym h.state) refl)

    stop-Shown :
        (p : Phase) (k : Kernel S H P W) → At (state_of p) k → Shown p halting (perform do_stop k)
    stop-Shown idle k h = subst (Shown idle halting) (sym (stop_at_rest k h)) (idle, at_rest, h)
    stop-Shown live k h = subst (Shown live halting) (sym (stop_beyond k running h refl)) (
        stop_ended live (stop_running invoke visit k) (λ e. cc)
          ((stop_running-Ends invoke visit running Graph.stop).at k h))
    stop-Shown broken k h = subst (Shown broken halting) (sym (stop_beyond k faulted h refl)) (
        stop_ended broken (stop_running invoke visit k) (λ e. cc)
          ((stop_running-Ends invoke visit faulted Graph.clean_up).at k h))

    perform-Shown :
        (operation : Operation S H P W) (p : Phase) (k : Kernel S H P W)
        → At (state_of p) k
        → Shown p (request_of operation) (perform operation k)
    unfolding set_bootstrap_step set_initialize_step set_module_stop_handler
        set_module_lifecycle_handler set_diagnostics_flush_step set_event_bus
        set_shutdown_deferred_event_policy add_platform_teardown_step record_started_modules
        configure_modules
    perform-Shown do_start p k h = start-Shown p k h
    perform-Shown do_stop p k h = stop-Shown p k h
    perform-Shown (on_bootstrap step) p k h = (p, configured true, h)
    perform-Shown (on_initialize step) p k h = (p, configured true, h)
    perform-Shown (on_module_stop handler) p k h = (p, configured true, h)
    perform-Shown (on_module_lifecycle handler) p k h = (p, configured true, h)
    perform-Shown (on_diagnostics_flush step) p k h = (p, configured true, h)
    perform-Shown (use_event_bus bus) p k h = (p, configured true, h)
    perform-Shown (settle_by policy limit) p k h = (p, configured true, h)
    perform-Shown (on_platform_teardown name step) p k h = (p, configured true, h)
    perform-Shown (have_started order) p k h = (p, configured true, h)
    perform-Shown (use_modules modules) p k h = (p, configured _, h)

    abbrev Refines : Kernel S H P W × List (Request × Bool) → Type 0
    Refines (k, seen) = (p : Phase) × Walk idle seen p × At (state_of p) k

    perform_all-Refines :
        (operations : List (Operation S H P W)) (r : Kernel S H P W × List (Request × Bool))
        → Refines r
        → Refines (perform_all operations r)
    unfolding perform_all
    perform_all-Refines [] r h = h
    perform_all-Refines (operation ∷ rest) (k, seen) (p, walk, h) =
        let (q, answers, there) = perform-Shown operation p k h in
        perform_all-Refines rest
          ((perform operation k).0, seen ++ (request_of operation, (perform operation k).1) ∷ [])
          (q, next walk answers, there)

    -- Whatever a client does with a new kernel, and whatever the kernel's callbacks do, the requests
    -- and the answers are a walk of the three phases from `idle`. The lifecycle machine is in the
    -- state of the phase that the walk ends in, so no operation leaves it between two phases, and
    -- its history is a walk along the lifecycle diagram to that state.
    pub kernel-Refines :
        (operations : List (Operation S H P W)) (w : W)
        → let (k, seen) = perform_all operations (new_kernel w, []) in
          (p : Phase) × Walk idle seen p × InState (state_of p) k.lifecycle
    unfolding new_kernel new_machine
    kernel-Refines operations w =
        perform_all-Refines operations (new_kernel w, [])
          (idle, here, record { state = refl; trail = History.start })
