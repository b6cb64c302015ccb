-- ===== src/Modules/Order.antt =====
-- The ordering loop: what holds at every round, and what it ends with.
use mathlib.Core.List.{reverse-cons}
use framekit.Base.{
  ◌+◌, ◌-◌, ◌≡◌, refl, ap, sym, subst, ◌∙◌, true, false, ◌&&◌, ◌||◌, String, List, [], ◌∷◌, ◌++◌,
  reverse, contains, ◌==◌, nat_eq, string_eq, beq_refl, if_cases, arith,
}
use framekit.Modules.{adjacent, Frontier, release, take_ready}
use framekit.Modules.Sizes.{same_test}
use framekit.Modules.Edges.{
  NoDup, number, same_value, Distinct, keys, pending, pending-done, release-indegree, release-ready,
  NoDup-release, release-base_order,
}

module _ (adjacency : List (String × List String)) where
  -- Read from the front: all the modules that depend on the first one are among the rest.
  abbrev pub Released : List String → Type 0
  Released [] = Unit {0}
  Released (x ∷ rest) = (pending adjacency rest x ≡ 0) × Released rest

  -- What holds of the frontier, where `done` is the base order backwards.
  pub record IsFrontier (done : List String) (f : Frontier) : Type 0 where
    pub ordered : f.base_order ≡ reverse done
    pub released : Released done
    pub exact : (x : String) → f.indegree x ≡ pending adjacency done x
    pub distinct : NoDup done
    pub fresh : NoDup f.ready
    pub apart : (x : String) → contains f.ready x ≡ true → contains done x ≡ false
    pub zero_in : (x : String) → (contains done x || contains f.ready x) ≡ true → f.indegree x ≡ 0
    pub declared :
        (x : String)
        → (contains done x || contains f.ready x) ≡ true
        → contains (keys adjacency) x ≡ true
    pub all_in :
        (x : String)
        → contains (keys adjacency) x ≡ true
        → f.indegree x ≡ 0
        → (contains done x || contains f.ready x) ≡ true

module _ (adjacency : List (String × List String)) (distinct_keys : NoDup (keys adjacency))
    (distinct_edges : Distinct adjacency)
    (declared_edges : (c x : String)
      → contains (adjacent adjacency c) x ≡ true
      → contains (keys adjacency) x ≡ true) where
  NoDup-adjacent :
      (adjacency : List (String × List String)) (c : String)
      → Distinct adjacency
      → NoDup (adjacent adjacency c)
  unfolding adjacent
  NoDup-adjacent [] c h = tt
  NoDup-adjacent ((m, ds) ∷ rest) c h =
      if_cases NoDup (m == c) (λ _. h.0) (λ _. NoDup-adjacent rest c h.1)

  module _ (done : List String) (f : Frontier) (current : String) (rest : List String)
      (h : IsFrontier adjacency done f) (at : f.ready ≡ current ∷ rest) where
    abbrev next : Frontier
    next = release (take_ready f current rest) (adjacent adjacency current)

    was_ready : (x : String) → contains f.ready x ≡ (current == x || contains rest x)
    unfolding contains
    was_ready x = rw at refl

    current_ready : contains f.ready current ≡ true
    current_ready = ground (arith, was_ready current, beq_refl current)

    rest_fresh : NoDup (current ∷ rest)
    rest_fresh = subst NoDup at h.fresh

    next_count :
        (x : String)
        → next.indegree x ≡ f.indegree x - number (contains (adjacent adjacency current) x)
    next_count x =
        release-indegree (adjacent adjacency current) (take_ready f current rest) x
          (NoDup-adjacent adjacency current distinct_edges)

    next_ready :
        (x : String)
        → contains next.ready x
          ≡ (contains rest x || contains (adjacent adjacency current) x && next.indegree x == 0)
    next_ready x =
        release-ready (adjacent adjacency current) (take_ready f current rest) x
          (NoDup-adjacent adjacency current distinct_edges)

    left_over :
        (x : String)
        → pending adjacency done x
          ≡ pending adjacency (current ∷ done) x + number (contains (adjacent adjacency current) x)
    left_over x =
        pending-done adjacency current done x distinct_keys
          (h.declared current (ground (arith, current_ready))) (h.apart current current_ready)

    pub step-IsFrontier : IsFrontier adjacency (current ∷ done) next
    unfolding contains
    step-IsFrontier = record {
      ordered =
          release-base_order (adjacent adjacency current) (take_ready f current rest)
          ∙ ap (λ l. l ++ current ∷ []) h.ordered
          ∙ sym (reverse-cons current done);
      released =
          (sym (h.exact current) ∙ h.zero_in current (ground (arith, current_ready)), h.released);
      exact = λ x. omega (arith, next_count x, h.exact x, left_over x);
      distinct = (h.apart current current_ready, h.distinct);
      fresh = NoDup-release (adjacent adjacency current) (take_ready f current rest) rest_fresh.1;
      apart = λ x r. ground (
        arith,
        was_ready x,
        next_ready x,
        next_count x,
        h.exact x,
        left_over x,
        same_test (contains rest) current x,
        same_test (contains done) current x,
        rest_fresh.0,
        h.zero_in x,
        h.apart x,
        h.zero_in current,
        current_ready,
        same_value f.indegree current x,
        r,
      );
      zero_in = λ x r. ground (
        arith,
        was_ready x,
        next_ready x,
        next_count x,
        h.exact x,
        left_over x,
        same_test (contains rest) current x,
        same_test (contains done) current x,
        rest_fresh.0,
        h.zero_in x,
        h.zero_in current,
        current_ready,
        same_value f.indegree current x,
        r,
      );
      declared = λ x r. ground (
        arith,
        next_ready x,
        was_ready x,
        h.declared x,
        h.declared current,
        current_ready,
        same_test (contains (keys adjacency)) current x,
        declared_edges current x,
        r,
      );
      all_in = λ x k z. ground (
        arith,
        was_ready x,
        next_ready x,
        next_count x,
        h.exact x,
        left_over x,
        same_test (contains rest) current x,
        same_test (contains done) current x,
        rest_fresh.0,
        h.all_in x,
        k,
        z,
      );
    }
