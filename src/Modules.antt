-- ===== src/Modules.antt =====
-- `ValidateModuleGraph`: include/framekit/module/graph.hpp, src/module_graph.cpp.
-- A `std::set` of strings is a list in rising order, into which `set_insert` puts a new element.
-- Counts of list elements are not reduced.
pub mod Edges
pub mod Sizes
pub mod Order
pub mod Rounds
pub mod Declared
pub mod Startup
pub mod Outcome
pub mod Accepted
use Prim.Native.Nat.{Ordering}
use Prim.Native.String.{compare}
use framekit.Base.{
  ℕ, zero, suc, ◌+◌, ◌-◌, Bool, true, false, not, ◌&&◌, ◌||◌, String, is_blank, List, [], ◌∷◌, ◌++◌,
  reverse, Option, none, some, ◌⊎◌, inl, inr, length, contains, ltb, ◌==◌, nat_eq, string_eq,
  if◌then◌else◌,
}

pub record ModuleSpec : Type 0 where
  pub id : String
  pub required_dependencies : List String
  pub optional_dependencies : List String

pub data ModuleGraphErrorCode : Type 0 where
  no_error duplicate_module_id missing_required_dependency cycle_detected : ModuleGraphErrorCode
  self_dependency duplicate_dependency_entry invalid_module_id : ModuleGraphErrorCode

pub record ModuleGraphError : Type 0 where
  pub code : ModuleGraphErrorCode
  pub module_id : String
  pub dependency_id : String
  pub message : String

pub record ModuleGraphValidationResult : Type 0 where
  pub valid : Bool
  pub base_order : List String
  pub startup_order : List String
  pub errors : List ModuleGraphError

abbrev pub error_of :
    ModuleGraphErrorCode → (module_id dependency_id message : String) → ModuleGraphError
error_of code module_id dependency_id message = record {
  code = code;
  module_id = module_id;
  dependency_id = dependency_id;
  message = message;
}

unfoldable pub invalid_graph : ModuleGraphError → ModuleGraphValidationResult
invalid_graph error = record {
  valid = false;
  base_order = [];
  startup_order = [];
  errors = error ∷ [];
}

abbrev pub precedes : String → String → Bool
precedes a b = elim (compare a b) [ Ordering.lt ↦ true | _ ↦ false ]

unfoldable pub insert_rising : String → List String → List String
insert_rising x [] = x ∷ []
insert_rising x (y ∷ ys) = if precedes x y then x ∷ y ∷ ys else y ∷ insert_rising x ys

-- `std::set::insert`.
unfoldable pub set_insert : String → List String → List String
unfolding insert_rising
set_insert x set = if contains set x then set else insert_rising x set

-- The first loop: the set of the ids, or the error.
unfoldable pub collect_ids :
    (known : List String) → List ModuleSpec → ModuleGraphError ⊎ List String
collect_ids known [] = inr known
collect_ids known (m ∷ rest) =
    let later = collect_ids (set_insert m.id known) rest in
    if is_blank m.id
    then inl (error_of invalid_module_id m.id "" "module id must be non-empty")
    else (if contains known m.id
        then inl (error_of duplicate_module_id m.id "" "duplicate module id")
        else later)

-- The dependencies of a module that were seen, and those among them that are declared.
pub record Dependencies : Type 0 where
  pub seen : List String
  pub adjacent : List String

-- The lambda `validate_dependency`.
unfoldable pub validate_dependency :
    (known : List String)
    → (module_id : String) → Dependencies
    → (dependency : String) → (required : Bool) → ModuleGraphError ⊎ Dependencies
validate_dependency known module_id d dependency required =
    let declared = contains known dependency in
    if dependency == module_id
    then inl (error_of self_dependency module_id dependency "self dependency is invalid")
    else (if contains d.seen dependency
        then inl
            (error_of duplicate_dependency_entry module_id dependency "duplicate dependency entry")
        else (if required && not declared
            then inl (
                error_of missing_required_dependency module_id dependency
                  "required dependency was not declared")
            else inr (record {
              seen = dependency ∷ d.seen;
              adjacent = if declared then set_insert dependency d.adjacent else d.adjacent;
            })))

-- The two loops over a module's dependencies.
unfoldable pub validate_dependencies :
    (known : List String)
    → (module_id : String) → (required : Bool) → Dependencies
    → List String
    → ModuleGraphError ⊎ Dependencies
validate_dependencies known module_id required d [] = inr d
validate_dependencies known module_id required d (dependency ∷ rest) =
    elim (validate_dependency known module_id d dependency required) [
      | inl error ↦ inl error
      | inr d' ↦ validate_dependencies known module_id required d' rest
    ]

abbrev pub no_dependencies : Dependencies
no_dependencies = record { seen = []; adjacent = [] }

unfoldable pub module_dependencies :
    (known : List String) → ModuleSpec → ModuleGraphError ⊎ Dependencies
module_dependencies known m =
    elim (validate_dependencies known m.id true no_dependencies m.required_dependencies) [
      | inl error ↦ inl error
      | inr d ↦ validate_dependencies known m.id false d m.optional_dependencies
    ]

-- The loop over the modules: the adjacency of every module, in the order of the modules.
unfoldable pub build_adjacency :
    (known : List String) → List ModuleSpec → ModuleGraphError ⊎ List (String × List String)
build_adjacency known [] = inr []
build_adjacency known (m ∷ rest) = elim (module_dependencies known m) [
  | inl error ↦ inl error
  | inr d ↦ elim (build_adjacency known rest) [
    | inl error ↦ inl error
    | inr adjacency ↦ inr ((m.id, d.adjacent) ∷ adjacency)
  ]
]

unfoldable pub adjacent : List (String × List String) → String → List String
adjacent [] id = []
adjacent ((m, dependencies) ∷ adjacency) id =
    if m == id then dependencies else adjacent adjacency id

-- The map of the counts is a function; a missing key counts 0, as `operator[]` has it.
unfoldable pub increment : (String → ℕ) → String → String → ℕ
increment indegree x y = if x == y then indegree y + 1 else indegree y

unfoldable pub count_dependencies : (String → ℕ) → List String → String → ℕ
count_dependencies indegree [] = indegree
count_dependencies indegree (d ∷ rest) = count_dependencies (increment indegree d) rest

unfoldable pub count_indegrees : (String → ℕ) → List (String × List String) → String → ℕ
count_indegrees indegree [] = indegree
count_indegrees indegree ((m, dependencies) ∷ rest) =
    count_indegrees (count_dependencies indegree dependencies) rest

unfoldable pub collect_ready : (ready : List String) → (String → ℕ) → List String → List String
collect_ready ready indegree [] = ready
collect_ready ready indegree (id ∷ rest) =
    collect_ready (if indegree id == 0 then set_insert id ready else ready) indegree rest

-- The variables of the ordering loop.
pub record Frontier : Type 0 where
  pub ready : List String
  pub indegree : String → ℕ
  pub base_order : List String

unfoldable pub decrement : (String → ℕ) → String → String → ℕ
decrement indegree x y =
    if x == y then (if ltb 0 (indegree y) then indegree y - 1 else indegree y) else indegree y

-- The inner loop, over the dependencies of the module that was taken.
unfoldable pub release : Frontier → List String → Frontier
release f [] = f
release f (d ∷ rest) =
    let indegree = decrement f.indegree d in
    release
      (record f {
        indegree = indegree;
        ready = if indegree d == 0 then set_insert d f.ready else f.ready;
      })
      rest

abbrev pub take_ready : Frontier → String → List String → Frontier
take_ready f current rest = record f { ready = rest; base_order = f.base_order ++ current ∷ [] }

-- The `while` loop takes one id per round, so there are at most as many rounds as ids.
unfoldable pub order_loop : (fuel : ℕ) → List (String × List String) → Frontier → Frontier
order_loop zero adjacency f = f
order_loop (suc fuel) adjacency f = elim f.ready [
  | [] ↦ f
  | current ∷ rest ↦
      order_loop fuel adjacency (release (take_ready f current rest) (adjacent adjacency current))
]

unfoldable pub first_frontier : (known : List String) → List (String × List String) → Frontier
first_frontier known adjacency =
    let indegree = count_indegrees (λ id. 0) adjacency in
    record { ready = collect_ready [] indegree known; indegree = indegree; base_order = [] }

unfoldable pub finish_order : (known : List String) → Frontier → ModuleGraphValidationResult
finish_order known f =
    if not (length f.base_order == length known)
    then invalid_graph (error_of cycle_detected "" "" "dependency cycle detected")
    else record {
      valid = true;
      base_order = f.base_order;
      startup_order = reverse f.base_order;
      errors = [];
    }

unfoldable pub order_graph :
    (known : List String) → List (String × List String) → ModuleGraphValidationResult
order_graph known adjacency =
    finish_order known (order_loop (length known) adjacency (first_frontier known adjacency))

unfoldable pub validate_known :
    (known : List String) → List ModuleSpec → ModuleGraphValidationResult
validate_known known modules = elim (build_adjacency known modules) [
  | inl error ↦ invalid_graph error
  | inr adjacency ↦ order_graph known adjacency
]

unfoldable pub validate_module_graph : List ModuleSpec → ModuleGraphValidationResult
unfolding validate_known
validate_module_graph modules = elim (collect_ids [] modules) [
  | inl error ↦ invalid_graph error
  | inr known ↦ validate_known known modules
]
