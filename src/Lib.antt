-- ===== src/Lib.antt =====
-- FrameKit: a model of its runtime core and what is proved of it.
--
-- FrameKit is a C++ library for hosts that run a loop of stages: a lifecycle machine, a loop policy
-- with a stage graph runner, a fault policy, an event bus, a service context and a module graph, which
-- a kernel puts together; an execution service, a runtime of child processes, the rules of dynamic
-- modules, input routing and a platform host stand beside it. Each part is a class with explicit
-- state; a method that changes it is a function here that returns the new state with the result.
--
-- The parts, by file:
--   Lifecycle     include/framekit/lifecycle/state.hpp, state_machine.hpp and
--                 src/lifecycle_state_machine.cpp. TransitionTo is transition_to. Graph has the diagram
--                 of docs/lifecycle-semantics.md as a relation, History what the history records.
--   Loop.Policy   include/framekit/loop/policy.hpp and src/loop_policy.cpp. ValidateLoopPolicy is
--                 validate_loop_policy, which the stage graph runner and the fault policy call.
--   Loop.Stages   the stages of include/framekit/loop/stage_graph.hpp and their names.
--   Loop.Runner   LoopStageGraphRunner of src/loop_stage_graph.cpp: Configure is configure,
--                 ExecuteFrame is execute_frame, cut into plan_steps (the budget), run_frame (the loop
--                 over the active stages) and the accumulator. A stage handler is a function on a state
--                 that all handlers share; it does not call the runner back.
--   Fault         include/framekit/fault/policy_runtime.hpp and src/fault_policy_runtime.cpp.
--                 Matrix has the table of docs/error-policy-matrix.md.
--   Events        include/framekit/event/bus.hpp and src/event_bus.cpp; Dispatch has
--                 DispatchImmediate and DrainDeferred. What a handler does is a parameter: it may
--                 consume the event, change the payload and the world, and use the bus, of which it
--                 returns the state it leaves. Handlers that throw are not modelled.
--   Services      include/framekit/service/context.hpp and bootstrap.hpp, src/bootstrap_services.cpp.
--                 The order in which an unordered map is visited is an argument of begin_teardown.
--                 Registered says which contexts the operations make.
--   Modules       include/framekit/module/graph.hpp and src/module_graph.cpp: ValidateModuleGraph is
--                 validate_module_graph, its last part order_graph.
--   Kernel        include/framekit/kernel/runtime.hpp and src/kernel_runtime.cpp: Start is start_kernel,
--                 Stop is stop_kernel, as sequences of actions (Kernel.Actions) each of which changes
--                 the kernel and says whether it succeeded. What the kernel calls may change the
--                 services, the bus and the world; it does not call the kernel back. Client has the
--                 specification that a client sees.
--   Execution     include/framekit/service/execution.hpp: InlineExecutionService, with what the run of
--                 a task does as a parameter (run), which may use the service. Uses says what tasks
--                 and other threads do to a service; a second drain at the same time is left out.
--                 Execution.Registry is ExecutionServiceRegistry.
--   Multiprocess  include/framekit/multiprocess/runtime.hpp and src/multiprocess_runtime.cpp, with the
--                 records of include/framekit/spec, ipc and multiprocess in Types. Starts has Start
--                 (start_processes), Launch the launch of the children, Restart GracefulStopChild and
--                 RestartChild, Ticks Tick and Stop (stop_processes). Launchers, policies, hooks and
--                 the transport are functions on a world; they do not call the runtime back. Budget.Runs
--                 says what a run is, Rollback what the launches and stops of a launcher alone do.
--   Loader        include/framekit/module/dynamic_loader.hpp: the rules of the dynamic modules.
--                 EvaluateDynamicLoadRequest is evaluate_load_request, and so on; the loader itself is
--                 an interface that has no implementation here.
--   Platform      include/framekit/platform/host_runtime.hpp and src/platform_host_runtime.cpp: the
--                 stage handlers in Platform, Configure in Platform.Setup, and Start, Tick and Stop in
--                 Platform.Running. It owns a stage graph runner whose handlers share the StageState.
--   Input         include/framekit/input/routing.hpp and src/input_routing_runtime.cpp: the router in
--                 Input and Input.Routing (Route is route), the queues in Input.Pending
--                 (NormalizePending is normalize_pending, DispatchImmediate is dispatch_pending). Aims
--                 says at which window an event is aimed, Subscribed which routers there are.
--   Samples       runs on small inputs.
--   Base          shared types, lists and their sorting, association lists for the maps, and decimal numbers.
--
-- Numbers are natural numbers; uint32_t and uint64_t results are taken modulo 2^32 and 2^64 where the
-- sources add. Sums that the sources form of container sizes are not reduced. The mutexes only make
-- single operations atomic, so an operation is one step.
--
-- Fuel: drain_loop runs on one round more than there are queued events, and a round that takes
-- nothing ends the loop. order_loop runs on as many rounds as there are ids, since each round takes one.
--
-- Not modelled: the Cocoa backend (src/cocoa_platform_backend.mm), whose hosts are a parameter of
-- Start, and the examples and tests. Getters are the fields of the records.
pub mod Base
pub mod Lifecycle
pub mod Loop
pub mod Fault
pub mod Events
pub mod Services
pub mod Input
pub mod Modules
pub mod Kernel
pub mod Execution
pub mod Multiprocess
pub mod Loader
pub mod Platform
pub mod Samples
