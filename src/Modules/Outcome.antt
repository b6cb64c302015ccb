-- ===== src/Modules/Outcome.antt =====
-- What the ordering comes to: a startup order, or a set of modules that wait for each other.
use mathlib.Core.List.{reverse-reverse}
use framekit.Base.{
  ◌<◌, ◌≡◌, refl, ap, sym, subst, ◌∙◌, ◌⊎◌, inl, inr, true, false, not, ◌&&◌, String, List, [], ◌∷◌,
  reverse, length, length-reverse, contains, remove_if, beq_refl, ◌==◌, nat_eq, string_eq, if_cases,
  Bool-cases, true-ne-false, arith,
}
use framekit.Modules.{
  ModuleSpec, ModuleGraphError, ModuleGraphValidationResult, cycle_detected, error_of,
  invalid_graph, collect_ids, build_adjacency, Frontier, order_loop, first_frontier, finish_order,
  order_graph, validate_known, validate_module_graph,
}
use framekit.Modules.Sizes.{same_test, length-le_of_NoDup, contains_of_length}
use framekit.Modules.Edges.{NoDup, keys}
use framekit.Modules.Order.{IsFrontier, Released}
use framekit.Modules.Rounds.{IsGraph, Ended, first_frontier-IsFrontier, order_loop-Ended}
use framekit.Modules.Declared.{
  ids, Collected, collect_ids-Collected, Belongs, Built, build_adjacency-Built,
}
use framekit.Modules.Startup.{
  dependents, Belongs-keys, Belongs-Distinct, Belongs-declared, Belongs-pending, contains-left,
  ids-declared, StartsInOrder, IsStartup, IsStuck, none-dependent, some-dependent,
}

first_missing :
    (l done : List String)
    → ((x : String) → contains l x ≡ true → contains done x ≡ true)
      ⊎ ((x : String) × (contains l x ≡ true) × (contains done x ≡ false))
unfolding contains
first_missing [] done = inl (λ x h. absurd (cc))
first_missing (y ∷ l) done = elim (Bool-cases (contains done y)) [
  | inr missing ↦ inr (y, ground (arith, beq_refl y), missing)
  | inl here ↦ elim (first_missing l done) [
    | inl all ↦ inl (λ x h. ground (arith, all x, same_test (contains done) y x, here, h))
    | inr (x, listed, missing) ↦ inr (x, ground (arith, listed), missing)
  ]
]

none_ready : (f : Frontier) (y : String) → f.ready ≡ [] → contains f.ready y ≡ false
unfolding contains
none_ready f y empty = ap (λ l. contains l y) empty

abbrev pub cycle_error : ModuleGraphError
cycle_error = error_of cycle_detected "" "" "dependency cycle detected"

abbrev pub Outcome : List ModuleSpec → ModuleGraphValidationResult → Type 0
Outcome modules r =
    ((r.valid ≡ true) × IsStartup modules r.startup_order)
    ⊎ ((r.valid ≡ false)
        × (r.errors ≡ cycle_error ∷ [])
        × (stuck : List String) × IsStuck modules stuck)

module _ (modules : List ModuleSpec) (known : List String) (adjacency : List (String × List String))
    (collected : Collected [] modules (inr known)) (belongs : Belongs known modules adjacency) where
  known-ids : (x : String) → contains known x ≡ contains (ids modules) x
  unfolding contains
  known-ids x = collected.0 x

  known-keys : (x : String) → contains known x ≡ contains (keys adjacency) x
  known-keys x =
      known-ids x ∙ ap (λ l. contains l x) (sym (Belongs-keys known modules adjacency belongs))

  pub graph : IsGraph adjacency
  graph = record {
    distinct_keys = subst NoDup (sym (Belongs-keys known modules adjacency belongs)) collected.2;
    distinct_edges = Belongs-Distinct known modules adjacency belongs;
    declared_edges =
        λ c x e. sym (known-keys x) ∙ Belongs-declared known modules adjacency c x belongs e;
  }

  pub ordering_ends :
      Ended adjacency graph (order_loop (length known) adjacency (first_frontier known adjacency))
  ordering_ends =
      order_loop-Ended adjacency graph (length known) [] (first_frontier known adjacency)
        (first_frontier-IsFrontier known adjacency graph known-keys)
        (omega (
          arith,
          length-le_of_NoDup (keys adjacency) known graph.distinct_keys (λ x e. known-keys x ∙ e),
        ))

  Released-StartsInOrder :
      (done : List String)
      → Released adjacency done
      → ((x : String) → contains done x ≡ true → contains known x ≡ true)
      → StartsInOrder modules done
  unfolding contains
  Released-StartsInOrder [] h sub = tt
  Released-StartsInOrder (x ∷ done) (free, h) sub = (
    none-dependent modules done x (
        sym (
          Belongs-pending known modules adjacency done x belongs
            (sub x (ground (arith, beq_refl x))))
        ∙ free),
    Released-StartsInOrder done h (λ y e. sub y (ground (arith, e))),
  )

  done_known :
      (done : List String) (f : Frontier)
      → IsFrontier adjacency done f
      → (x : String) → contains done x ≡ true
      → contains known x ≡ true
  done_known done f h x e = ground (arith, h.declared x, known-keys x, e)

  order_length :
      (done : List String) (f : Frontier)
      → IsFrontier adjacency done f
      → length f.base_order ≡ length done
  order_length done f h = ap length h.ordered ∙ length-reverse done

  same_members :
      (done : List String) (f : Frontier)
      → IsFrontier adjacency done f
      → not (length f.base_order == length known) ≡ false
      → (x : String) → contains done x ≡ contains (ids modules) x
  same_members done f h all x = ground (
    arith,
    known-ids x,
    done_known done f h x,
    contains_of_length done known x h.distinct (done_known done f h)
        (omega (arith, order_length done f h, full)),
  )
    where
      full : length f.base_order ≡ length known
      full = (nat_eq.is_equal_iff (length f.base_order) (length known)).0 (ground (arith, all))

  left_over-IsStuck :
      (done : List String) (f : Frontier)
      → IsFrontier adjacency done f
      → f.ready ≡ []
      → not (length f.base_order == length known) ≡ true
      → IsStuck modules (remove_if (contains done) (ids modules))
  left_over-IsStuck done f h empty fewer = elim (first_missing known done) [
    | inl whole ↦ absurd (
        ground (
          arith,
          fewer,
          nat_eq.is_equal_iff (length f.base_order) (length known),
          order_length done f h,
          length-le_of_NoDup done known h.distinct (done_known done f h),
          length-le_of_NoDup known done collected.1 whole,
        ))
    | inr (x, listed, missing) ↦ record {
      member = x;
      nonempty = ground (arith, contains-left done x (ids modules), known-ids x, listed, missing);
      declared = λ y e. ground (arith, contains-left done y (ids modules), e);
      needed = λ y e.
          some-dependent modules modules done y (ids-declared modules modules (λ z d. d))
            (waiting y (ground (arith, contains-left done y (ids modules), e)));
    }
  ]
    where
      waiting :
          (y : String)
          → (contains (ids modules) y && not (contains done y)) ≡ true
          → 0 < dependents modules done y
      waiting y e = elim (Bool-cases (f.indegree y == 0)) [
        | inl none_left ↦ absurd (
            ground
              (arith, h.all_in y, known-ids y, known-keys y, none_left, e, none_ready f y empty))
        | inr some_left ↦ ground (
          arith,
          some_left,
          h.exact y,
          Belongs-pending known modules adjacency done y belongs,
          known-ids y,
          e,
        )
      ]

  finish_order-Outcome :
      (f : Frontier) → Ended adjacency graph f → Outcome modules (finish_order known f)
  unfolding finish_order invalid_graph
  finish_order-Outcome f (done, h, empty) =
      let back = ap reverse h.ordered ∙ reverse-reverse done in
      if_cases (Outcome modules) (not (length f.base_order == length known))
        (λ fewer. inr (
          refl,
          refl,
          remove_if (contains done) (ids modules),
          left_over-IsStuck done f h empty fewer,
        ))
        (λ all. inl (
          refl,
          record {
            once = subst NoDup (sym back) h.distinct;
            every = λ x.
                subst (λ l. contains l x ≡ contains (ids modules) x) (sym back)
                  (same_members done f h all x);
            in_order =
                subst (StartsInOrder modules) (sym back)
                  (Released-StartsInOrder done h.released (λ x e. done_known done f h x e));
          },
        ))

  order_graph-Outcome : Outcome modules (order_graph known adjacency)
  unfolding order_graph
  order_graph-Outcome =
      finish_order-Outcome (order_loop (length known) adjacency (first_frontier known adjacency))
        ordering_ends

abbrev pub graph_of :
    List String → ModuleGraphError ⊎ List (String × List String) → ModuleGraphValidationResult
graph_of known (inl error) = invalid_graph error
graph_of known (inr adjacency) = order_graph known adjacency

abbrev pub known_of : List ModuleSpec → ModuleGraphError ⊎ List String → ModuleGraphValidationResult
known_of modules (inl error) = invalid_graph error
known_of modules (inr known) = graph_of known (build_adjacency known modules)

-- Once the declarations are in order (the ids are given and distinct, and no dependency entry is
-- refused), the validation either accepts the graph with a startup order that has each module once
-- and behind all the modules that it depends on; or it reports a cycle, and there are modules each of
-- which another one of them depends on.
pub validate_module_graph-Outcome :
    (modules : List ModuleSpec) (known : List String) (adjacency : List (String × List String))
    → collect_ids [] modules ≡ inr known
    → build_adjacency known modules ≡ inr adjacency
    → Outcome modules (validate_module_graph modules)
unfolding validate_module_graph validate_known
validate_module_graph-Outcome modules known adjacency collected built =
    let c = subst (Collected [] modules) collected (collect_ids-Collected [] modules tt) in
    let b = subst (Built known modules) built (build_adjacency-Built known modules) in
    subst (Outcome modules) (sym (ap (known_of modules) collected ∙ ap (graph_of known) built))
      (order_graph-Outcome modules known adjacency c b)

pub refused : (error : ModuleGraphError) → (invalid_graph error).valid ≡ true → ⊥
unfolding invalid_graph
refused error ok = true-ne-false (sym ok)

Outcome-IsStartup :
    (modules : List ModuleSpec) (r : ModuleGraphValidationResult)
    → Outcome modules r
    → r.valid ≡ true
    → IsStartup modules r.startup_order
Outcome-IsStartup modules r (inl (_, startup)) ok = startup
Outcome-IsStartup modules r (inr (off, _, _, _)) ok = absurd (true-ne-false (sym ok ∙ off))

-- A graph that is accepted has a startup order that has each module once and behind all the modules
-- that it depends on.
pub valid-IsStartup :
    (modules : List ModuleSpec)
    → (validate_module_graph modules).valid ≡ true
    → IsStartup modules (validate_module_graph modules).startup_order
unfolding validate_module_graph validate_known
valid-IsStartup modules ok = first (collect_ids [] modules) (collect_ids-Collected [] modules tt) ok
  where
    second :
        (known : List String)
        → Collected [] modules (inr known)
        → (result : ModuleGraphError ⊎ List (String × List String)) → Built known modules result
        → (graph_of known result).valid ≡ true
        → IsStartup modules (graph_of known result).startup_order
    second known c (inl error) b ok = absurd (refused error ok)
    second known c (inr adjacency) b ok =
        Outcome-IsStartup modules (order_graph known adjacency)
          (order_graph-Outcome modules known adjacency c b) ok

    first :
        (result : ModuleGraphError ⊎ List String)
        → Collected [] modules result
        → (known_of modules result).valid ≡ true
        → IsStartup modules (known_of modules result).startup_order
    first (inl error) c ok = absurd (refused error ok)
    first (inr known) c ok =
        second known c (build_adjacency known modules) (build_adjacency-Built known modules) ok
