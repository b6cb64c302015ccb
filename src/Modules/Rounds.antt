-- ===== src/Modules/Rounds.antt =====
-- The whole of the ordering loop: it starts well, and its fuel is enough.
use framekit.Base.{
  ℕ, zero, suc, ◌+◌, ◌≤◌, ◌<◌, ◌≡◌, refl, ap, sym, subst, beq_refl, ◌⊎◌, inl, inr, true, String,
  List, [], ◌∷◌, length, contains, nat_eq, string_eq, arith,
}
use framekit.Modules.{
  adjacent, count_indegrees, Frontier, release, take_ready, order_loop, first_frontier,
}
use framekit.Modules.Sizes.{same_test, length-le_of_NoDup}
use framekit.Modules.Edges.{
  NoDup, Distinct, keys, count_indegrees_lem, contains-collect_ready, NoDup-collect_ready,
}
use framekit.Modules.Order.{IsFrontier, step-IsFrontier}

list_cases : (l : List String) → (l ≡ []) ⊎ ((x : String) × (xs : List String) × (l ≡ x ∷ xs))
list_cases [] = inl refl
list_cases (x ∷ xs) = inr (x, xs, refl)

-- The adjacencies that the loops before the ordering make.
pub record IsGraph (adjacency : List (String × List String)) : Type 0 where
  pub distinct_keys : NoDup (keys adjacency)
  pub distinct_edges : Distinct adjacency
  pub declared_edges :
      (c x : String) → contains (adjacent adjacency c) x ≡ true → contains (keys adjacency) x ≡ true

pub first_frontier-IsFrontier :
    (known : List String) (adjacency : List (String × List String))
    → IsGraph adjacency
    → ((x : String) → contains known x ≡ contains (keys adjacency) x)
    → IsFrontier adjacency [] (first_frontier known adjacency)
unfolding first_frontier contains
first_frontier-IsFrontier known adjacency g same = record {
  ordered = refl;
  released = tt;
  exact = λ x. omega (arith, count_indegrees_lem adjacency (λ id. 0) x g.distinct_edges);
  distinct = tt;
  fresh = NoDup-collect_ready known [] (count_indegrees (λ id. 0) adjacency) tt;
  apart = λ x r. refl;
  zero_in = λ x r.
      ground (arith, contains-collect_ready known [] (count_indegrees (λ id. 0) adjacency) x, r);
  declared = λ x r.
      ground
        (arith, contains-collect_ready known [] (count_indegrees (λ id. 0) adjacency) x, same x, r);
  all_in = λ x k z. ground (
    arith,
    contains-collect_ready known [] (count_indegrees (λ id. 0) adjacency) x,
    same x,
    k,
    z,
  );
}

module _ (adjacency : List (String × List String)) (g : IsGraph adjacency) where
  loop-stop : (fuel : ℕ) (f : Frontier) → f.ready ≡ [] → order_loop (suc fuel) adjacency f ≡ f
  unfolding order_loop
  loop-stop fuel f e =
      ap
        (λ (l : List String). elim l [
          | [] ↦ f
          | current ∷ rest ↦
              order_loop fuel adjacency
                (release (take_ready f current rest) (adjacent adjacency current))
        ])
        e

  loop-next :
      (fuel : ℕ) (f : Frontier) (current : String) (rest : List String)
      → f.ready ≡ current ∷ rest
      → order_loop (suc fuel) adjacency f
        ≡ order_loop fuel adjacency
            (release (take_ready f current rest) (adjacent adjacency current))
  unfolding order_loop
  loop-next fuel f current rest e =
      ap
        (λ (l : List String). elim l [
          | [] ↦ f
          | current ∷ rest ↦
              order_loop fuel adjacency
                (release (take_ready f current rest) (adjacent adjacency current))
        ])
        e

  -- While an id is ready, fewer are done than there are.
  done-lt :
      (done : List String) (f : Frontier) (current : String) (rest : List String)
      → IsFrontier adjacency done f
      → f.ready ≡ current ∷ rest
      → length done < length (keys adjacency)
  unfolding contains
  done-lt done f current rest h at =
      let here =
        subst (λ l. contains l current ≡ true) (sym at) (ground (arith, beq_refl current)) in
      length-le_of_NoDup (current ∷ done) (keys adjacency) (h.apart current here, h.distinct)
        (λ x e. ground (
          arith,
          h.declared x,
          h.declared current,
          here,
          same_test (contains (keys adjacency)) current x,
          e,
        ))

  -- The loop has ended.
  abbrev pub Ended : Frontier → Type 0
  Ended f = (done : List String) × IsFrontier adjacency done f × (f.ready ≡ [])

  pub order_loop-Ended :
      (fuel : ℕ) (done : List String) (f : Frontier)
      → IsFrontier adjacency done f
      → length (keys adjacency) ≤ fuel + length done
      → Ended (order_loop fuel adjacency f)
  unfolding order_loop
  order_loop-Ended zero done f h enough = elim (list_cases f.ready) [
    | inl e ↦ (done, h, e)
    | inr (current, rest, at) ↦ absurd (omega (arith, done-lt done f current rest h at, enough))
  ]
  order_loop-Ended (suc fuel) done f h enough = elim (list_cases f.ready) [
    | inl e ↦ subst Ended (sym (loop-stop fuel f e)) (done, h, e)
    | inr (current, rest, at) ↦ subst Ended (sym (loop-next fuel f current rest at)) (
        order_loop-Ended fuel (current ∷ done)
          (release (take_ready f current rest) (adjacent adjacency current))
          (step-IsFrontier adjacency g.distinct_keys g.distinct_edges g.declared_edges done f
            current rest h at)
          (omega (arith, enough)))
  ]
