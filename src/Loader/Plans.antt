-- ===== src/Loader/Plans.antt =====
-- The plan of a rollback after a failed load.
use mathlib.Core.List.{append_assoc, reverse-append, reverse-cons, reverse-reverse}
use framekit.Base.{
  ◌≡◌, ◌≢◌, refl, sym, ap, ◌∙◌, ◌⊎◌, inl, inr, true, false, ◌||◌, String, is_blank, List, [], ◌∷◌,
  ◌++◌, reverse, contains, string_eq, beq_cases, Bool-cases, arith,
}
use framekit.Loader.{unload_until, build_rollback_plan}

contains-append :
    (xs ys : List String) (a : String) → contains (xs ++ ys) a ≡ (contains xs a || contains ys a)
unfolding contains
contains-append [] ys a = refl
contains-append (x ∷ xs) ys a = ground (arith, contains-append xs ys a)

contains-reverse : (xs : List String) (a : String) → contains (reverse xs) a ≡ contains xs a
unfolding contains
contains-reverse [] a = refl
contains-reverse (x ∷ xs) a =
    ap (λ (l : List String). contains l a) (reverse-cons x xs)
    ∙ contains-append (reverse xs) (x ∷ []) a
    ∙ ground (arith, contains-reverse xs a)

-- The loop stops behind the first occurrence.
record Until (failed : String) (ids unloaded : List String) : Type 0 where
  before : List String
  after : List String
  split : ids ≡ before ++ failed ∷ after
  first : contains before failed ≡ false
  result : unloaded ≡ before ++ failed ∷ []

unload_until-Until :
    (failed : String) (ids : List String)
    → contains ids failed ≡ true
    → Until failed ids (unload_until failed ids)
unfolding unload_until contains
unload_until-Until failed [] found = absurd (cc)
unload_until-Until failed (id ∷ rest) found = elim (beq_cases id failed) [
  | inl (e, p) ↦ record {
    before = [];
    after = rest;
    split = ap (λ (x : String). x ∷ rest) p;
    first = refl;
    result = ground arith;
  }
  | inr (e, _) ↦
      let u = unload_until-Until failed rest (ground arith) in
      record {
        before = id ∷ u.before;
        after = u.after;
        split = ap (λ (l : List String). id ∷ l) u.split;
        first = ground (arith, u.first);
        result = ground (arith, u.result);
      }
]

-- The modules that a rollback unloads: the failed one, where it was loaded the last time, and all
-- that were loaded behind it, the latest first.
pub record Unloads (loaded : List String) (failed : String) (order : List String) : Type 0 where
  pub before : List String
  pub after : List String
  pub split : loaded ≡ before ++ failed ∷ after
  pub last : contains after failed ≡ false
  pub reversed : order ≡ reverse (failed ∷ after)

unloads :
    (loaded : List String) (failed : String)
    → contains loaded failed ≡ true
    → Unloads loaded failed (unload_until failed (reverse loaded))
unloads loaded failed found =
    let u = unload_until-Until failed (reverse loaded) (contains-reverse loaded failed ∙ found) in
    record {
      before = reverse u.after;
      after = reverse u.before;
      split =
          sym (reverse-reverse loaded)
          ∙ ap reverse u.split
          ∙ reverse-append u.before (failed ∷ u.after)
          ∙ ap (λ (l : List String). l ++ reverse u.before) (reverse-cons failed u.after)
          ∙ append_assoc (reverse u.after) (failed ∷ []) (reverse u.before);
      last = contains-reverse u.before failed ∙ u.first;
      reversed =
          u.result
          ∙ sym (
              reverse-cons failed (reverse u.before)
              ∙ ap (λ (l : List String). l ++ failed ∷ []) (reverse-reverse u.before));
    }

-- A rollback is planned exactly if the failed module has a name and was loaded. The plan then
-- unloads it, as of its last load, and every module that was loaded after it, the latest first, and
-- no other; otherwise the plan is empty. The plan names the module in both cases.
pub build_rollback_plan_lem :
    (loaded : List String) (failed : String)
    → (let plan = build_rollback_plan loaded failed in
        (plan.failed_module_id ≡ failed)
        × ((plan.required ≡ true)
              × (failed ≢ "")
              × (contains loaded failed ≡ true)
              × Unloads loaded failed plan.unload_order
            ⊎ (plan.required ≡ false)
              × ((failed ≡ "") ⊎ (contains loaded failed ≡ false))
              × (plan.unload_order ≡ [])))
unfolding build_rollback_plan
build_rollback_plan_lem loaded failed = elim (Bool-cases (is_blank failed)) [
  | inl e ↦
      (ground arith, inr (ground arith, inl ((string_eq.is_equal_iff failed "").0 e), ground arith))
  | inr e ↦ elim (Bool-cases (contains loaded failed)) [
    | inl f ↦ (
      ground arith,
      inl (
        ground arith,
        ground (arith, string_eq.is_equal_iff failed ""),
        f,
        rw (e, f) (unloads loaded failed f),
      ),
    )
    | inr f ↦ (ground arith, inr (ground arith, inr f, ground arith))
  ]
]
