-- ===== src/Modules/Edges.antt =====
-- The sets and the counts of the ordering, element by element.
use framekit.Base.{
  ℕ, ◌+◌, ◌-◌, ◌≡◌, refl, ap, sym, subst, inl, inr, Bool, true, false, not, ◌&&◌, ◌||◌, String,
  List, [], ◌∷◌, contains, ◌==◌, nat_eq, string_eq, beq_of_ne, beq_cases, if◌then◌else◌, if_cases,
  arith,
}
use framekit.Modules.{
  insert_rising, set_insert, adjacent, increment, count_dependencies, count_indegrees,
  collect_ready, Frontier, decrement, release,
}

abbrev pub NoDup : List String → Type 0
NoDup [] = Unit {0}
NoDup (x ∷ xs) = (contains xs x ≡ false) × NoDup xs

abbrev pub number : Bool → ℕ
number true = 1
number false = 0

contains-insert_rising :
    (x y : String) (xs : List String) → contains (insert_rising x xs) y ≡ (x == y || contains xs y)
unfolding insert_rising contains
contains-insert_rising x y [] = refl
contains-insert_rising x y (z ∷ xs) = ground (arith, contains-insert_rising x y xs)

pub contains-set_insert :
    (x y : String) (xs : List String) → contains (set_insert x xs) y ≡ (x == y || contains xs y)
unfolding set_insert
contains-set_insert x y xs =
    ground (arith, contains-insert_rising x y xs, string_eq.is_equal_iff x y)

NoDup-insert_rising :
    (x : String) (xs : List String) → contains xs x ≡ false → NoDup xs → NoDup (insert_rising x xs)
unfolding insert_rising contains
NoDup-insert_rising x [] new h = (refl, tt)
NoDup-insert_rising x (y ∷ ys) new h = ground (
  arith,
  NoDup-insert_rising x ys,
  contains-insert_rising x y ys,
  string_eq.is_equal_iff x y,
  string_eq.is_equal_iff y x,
)

pub NoDup-set_insert : (x : String) (xs : List String) → NoDup xs → NoDup (set_insert x xs)
unfolding set_insert
NoDup-set_insert x xs h =
    if_cases NoDup (contains xs x) (λ _. h) (λ new. NoDup-insert_rising x xs new h)

pub count_dependencies_lem :
    (ds : List String) (indegree : String → ℕ) (x : String)
    → NoDup ds
    → count_dependencies indegree ds x ≡ indegree x + number (contains ds x)
unfolding count_dependencies increment contains
count_dependencies_lem [] indegree x h = omega arith
count_dependencies_lem (d ∷ ds) indegree x h =
    ground
      (arith, count_dependencies_lem ds (increment indegree d) x h.1, string_eq.is_equal_iff d x)

-- How many modules that are not in `done` depend on `x`.
unfoldable pub pending : List (String × List String) → (done : List String) → String → ℕ
pending [] done x = 0
pending ((m, ds) ∷ adjacency) done x =
    number (contains ds x && not (contains done m)) + pending adjacency done x

abbrev pub Distinct : List (String × List String) → Type 0
Distinct [] = Unit
Distinct ((m, ds) ∷ adjacency) = NoDup ds × Distinct adjacency

pub count_indegrees_lem :
    (adjacency : List (String × List String)) (indegree : String → ℕ) (x : String)
    → Distinct adjacency
    → count_indegrees indegree adjacency x ≡ indegree x + pending adjacency [] x
unfolding count_indegrees pending contains
count_indegrees_lem [] indegree x h = omega arith
count_indegrees_lem ((m, ds) ∷ adjacency) indegree x h = ground (
  arith,
  count_indegrees_lem adjacency (count_dependencies indegree ds) x h.1,
  count_dependencies_lem ds indegree x h.0,
)

pub contains-added :
    (test : Bool) (x y : String) (set : List String)
    → contains (if test then set_insert x set else set) y ≡ (contains set y || x == y && test)
contains-added true x y set = ground (arith, contains-set_insert x y set)
contains-added false x y set = ground arith

-- A number that belongs to one of two equal strings.
pub same_value : (f : String → ℕ) (x y : String) → (x == y) ≡ true → f x ≡ f y
same_value f x y h = ap f ((string_eq.is_equal_iff x y).0 h)

pub contains-collect_ready :
    (ids ready : List String) (indegree : String → ℕ) (x : String)
    → contains (collect_ready ready indegree ids) x
      ≡ (contains ready x || contains ids x && indegree x == 0)
unfolding collect_ready contains
contains-collect_ready [] ready indegree x = ground arith
contains-collect_ready (y ∷ ids) ready indegree x = ground (
  arith,
  contains-collect_ready ids (if indegree y == 0 then set_insert y ready else ready) indegree x,
  contains-added (indegree y == 0) y x ready,
  same_value indegree y x,
)

pub NoDup-collect_ready :
    (ids ready : List String) (indegree : String → ℕ)
    → NoDup ready
    → NoDup (collect_ready ready indegree ids)
unfolding collect_ready
NoDup-collect_ready [] ready indegree h = h
NoDup-collect_ready (y ∷ ids) ready indegree h =
    NoDup-collect_ready ids _ indegree
      (if_cases NoDup (indegree y == 0) (λ _. NoDup-set_insert y ready h) (λ _. h))

-- The keys of an adjacency.
abbrev pub keys : List (String × List String) → List String
keys [] = []
keys ((m, ds) ∷ adjacency) = m ∷ keys adjacency

pending-other :
    (adjacency : List (String × List String)) (current : String) (done : List String) (x : String)
    → contains (keys adjacency) current ≡ false
    → pending adjacency (current ∷ done) x ≡ pending adjacency done x
unfolding pending contains
pending-other [] current done x h = refl
pending-other ((m, ds) ∷ adjacency) current done x h = ground (
  arith,
  pending-other adjacency current done x,
  string_eq.is_equal_iff m current,
  string_eq.is_equal_iff current m,
)

-- A module that is done no longer counts for its dependencies.
pub pending-done :
    (adjacency : List (String × List String)) (current : String) (done : List String) (x : String)
    → NoDup (keys adjacency)
    → contains (keys adjacency) current ≡ true
    → contains done current ≡ false
    → pending adjacency done x
      ≡ pending adjacency (current ∷ done) x + number (contains (adjacent adjacency current) x)
unfolding pending adjacent contains
pending-done [] current done x distinct here new = absurd (cc)
pending-done ((m, ds) ∷ adjacency) current done x distinct here new = elim (beq_cases m current) [
  | inl (same, path) ↦ ground (
    arith,
    same,
    (string_eq.is_equal_iff current m).1 (sym path),
    subst (λ y. contains done y ≡ false) (sym path) new,
    pending-other adjacency current done x
        (subst (λ y. contains (keys adjacency) y ≡ false) path distinct.0),
  )
  | inr (other, differ) ↦ ground (
    arith,
    other,
    beq_of_ne current m (λ e. differ (sym e)),
    pending-done adjacency current done x distinct.1 (ground (arith, here, other)) new,
  )
]

-- What the inner loop does to the counts and to the ready set.
pub release-indegree :
    (ds : List String) (f : Frontier) (x : String)
    → NoDup ds
    → (release f ds).indegree x ≡ f.indegree x - number (contains ds x)
unfolding release decrement contains
release-indegree [] f x h = omega arith
release-indegree (d ∷ ds) f x h =
    let indegree = decrement f.indegree d in
    ground (
      arith,
      release-indegree ds
          (record f {
            indegree = indegree;
            ready = if indegree d == 0 then set_insert d f.ready else f.ready;
          })
          x h.1,
      same_value (λ y. number (contains ds y)) d x,
      h.0,
    )

pub release-ready :
    (ds : List String) (f : Frontier) (x : String)
    → NoDup ds
    → contains (release f ds).ready x
      ≡ (contains f.ready x || contains ds x && (release f ds).indegree x == 0)
unfolding release decrement contains
release-ready [] f x h = ground arith
release-ready (d ∷ ds) f x h =
    let indegree = decrement f.indegree d in
    let f' = record f {
      indegree = indegree;
      ready = if indegree d == 0 then set_insert d f.ready else f.ready;
    } in
    ground (
      arith,
      release-ready ds f' x h.1,
      contains-added (indegree d == 0) d x f.ready,
      release-indegree ds f' x h.1,
      same_value indegree d x,
      same_value (λ y. number (contains ds y)) d x,
      h.0,
    )

pub NoDup-release : (ds : List String) (f : Frontier) → NoDup f.ready → NoDup (release f ds).ready
unfolding release
NoDup-release [] f h = h
NoDup-release (d ∷ ds) f h =
    NoDup-release ds _
      (if_cases NoDup (decrement f.indegree d d == 0) (λ _. NoDup-set_insert d f.ready h) (λ _. h))

pub release-base_order :
    (ds : List String) (f : Frontier) → (release f ds).base_order ≡ f.base_order
unfolding release
release-base_order [] f = refl
release-base_order (d ∷ ds) f = release-base_order ds _
