-- ===== src/Execution/Tracked.antt =====
-- The tasks that wait, and the results that may still change.
use framekit.Base.{
  ℕ, ◌≤◌, ◌<◌, ◌≡◌, ◌≢◌, ap, subst, sym, ◌∙◌, false, true-ne-false, List, [], ◌∷◌, ◌++◌, none, some,
  some_injective, All, All-append, nat_eq, beq_of_ne, arith,
}
use framekit.Base.Assoc.{lookup, insert, lookup-insert}
use framekit.Execution.{ExecutionTaskResult, PendingTask, queued, result_of, is_queued}
use framekit.Execution.Uses.{Erased, gone, behind}

-- No number twice.
abbrev pub Apart : {T : Type 0} → List (PendingTask T) → Type 0
Apart [] = Unit {0}
Apart (x ∷ l) = All (λ y. x.task_id ≢ y.task_id) l × Apart l

-- Results that are no longer `queued` stay as they are.
abbrev pub Stays : (before after : List (ℕ × ExecutionTaskResult)) → Type 0
Stays before after =
    (id : ℕ) (r : ExecutionTaskResult)
    → lookup id before ≡ some r
    → is_queued r.state ≡ false
    → lookup id after ≡ some r

-- An assignment at another number.
pub lookup-other :
    (k id : ℕ) (v : ExecutionTaskResult) (m : List (ℕ × ExecutionTaskResult))
    → k ≢ id
    → lookup id (insert k v m) ≡ lookup id m
lookup-other k id v m other = lookup-insert k id v m ∙ rw (beq_of_ne k id other)

pub none-ne-some : {r : ExecutionTaskResult} → none ≡ some r → ⊥
none-ne-some e = cc

pub Stays-trans :
    (m₁ m₂ m₃ : List (ℕ × ExecutionTaskResult)) → Stays m₁ m₂ → Stays m₂ m₃ → Stays m₁ m₃
Stays-trans m₁ m₂ m₃ f g id r found off = g id r (f id r found off) off

-- A number whose task is waiting has no result that stays.
pub waiting-ne :
    (k : ℕ) (m : List (ℕ × ExecutionTaskResult)) (id : ℕ) (r : ExecutionTaskResult)
    → lookup k m ≡ some (result_of k queued "queued")
    → lookup id m ≡ some r
    → is_queued r.state ≡ false
    → k ≢ id
waiting-ne k m id r waits found off same =
    let e : some (result_of k queued "queued") ≡ some r =
      sym waits ∙ ap (λ i. lookup i m) same ∙ found in
    true-ne-false (ap (λ (x : ExecutionTaskResult). is_queued x.state) (some_injective e) ∙ off)

Stays-insert :
    (k : ℕ) (m : List (ℕ × ExecutionTaskResult)) (v : ExecutionTaskResult)
    → lookup k m ≡ some (result_of k queued "queued")
    → Stays m (insert k v m)
Stays-insert k m v waits id r found off =
    lookup-other k id v m (waiting-ne k m id r waits found off) ∙ found

module _ {T : Type 0} where
  Erased-All :
      {id : ℕ} {l kept : List (PendingTask T)} (P : PendingTask T → Type 0)
      → Erased id l kept
      → All P l
      → All P kept
  Erased-All P (gone same) h = h.1
  Erased-All P (behind e) h = (h.0, Erased-All P e h.1)

  Erased-Apart :
      {id : ℕ} {l kept : List (PendingTask T)}
      → Erased id l kept
      → Apart l
      → Apart kept × All (λ y. id ≢ y.task_id) kept
  Erased-Apart (gone {t} {l} same) h = (h.1, subst (λ i. All (λ y. i ≢ y.task_id) l) same h.0)
  Erased-Apart (behind {t} {l} {kept} e) h =
      let (apart, other) = Erased-Apart e h.1 in
      ((Erased-All _ e h.0, apart), (λ same. head_other e h.0 (sym same), other))
    where
      head_other :
          {id : ℕ} {l kept : List (PendingTask T)} {x : ℕ}
          → Erased id l kept
          → All (λ y. x ≢ y.task_id) l
          → x ≢ id
      head_other (gone same) h x = h.0 (x ∙ sym same)
      head_other (behind e) h x = head_other e h.1 x

  pub Erased-append :
      {id : ℕ} {l kept : List (PendingTask T)} (c : List (PendingTask T))
      → Erased id l kept
      → Erased id (c ++ l) (c ++ kept)
  Erased-append [] e = e
  Erased-append (x ∷ c) e = behind (Erased-append c e)

  pub Apart-snoc :
      (l : List (PendingTask T)) (x : PendingTask T)
      → Apart l
      → All (λ y. y.task_id ≢ x.task_id) l
      → Apart (l ++ x ∷ [])
  Apart-snoc [] x h other = (tt, tt)
  Apart-snoc (y ∷ l) x h other =
      (All-append _ l (x ∷ []) h.0 (other.0, tt), Apart-snoc l x h.1 other.1)

  abbrev pub Waiting : List (ℕ × ExecutionTaskResult) → PendingTask T → Type 0
  Waiting results t = lookup t.task_id results ≡ some (result_of t.task_id queued "queued")

  -- The tasks `l` are waiting: they have numbers of their own, below the next one, and the result
  -- that they are queued. No later number has a result.
  pub record Tracked (l : List (PendingTask T)) (results : List (ℕ × ExecutionTaskResult))
      (next : ℕ) : Type 0 where
    pub apart : Apart l
    pub waiting : All (Waiting results) l
    pub below : All (λ t. t.task_id < next) l
    pub unknown : (id : ℕ) → next ≤ id → lookup id results ≡ none

  pub All-other :
      (k : ℕ) (v : ExecutionTaskResult) (m : List (ℕ × ExecutionTaskResult))
      (l : List (PendingTask T))
      → All (λ y. k ≢ y.task_id) l
      → All (Waiting m) l
      → All (Waiting (insert k v m)) l
  All-other k v m [] other h = tt
  All-other k v m (x ∷ l) other h =
      (lookup-other k x.task_id v m other.0 ∙ h.0, All-other k v m l other.1 h.1)

  -- What holds of the numbers of all the tasks holds of that of the one that is taken out.
  Erased-has :
      {id : ℕ} {l kept : List (PendingTask T)} (Q : ℕ → Type 0)
      → Erased id l kept
      → All (λ t. Q t.task_id) l
      → Q id
  Erased-has Q (gone same) h = subst Q same h.0
  Erased-has Q (behind e) h = Erased-has Q e h.1

  -- A waiting task gets another result, and waits no longer.
  pub settle-Tracked :
      {id : ℕ} {l kept : List (PendingTask T)} (v : ExecutionTaskResult)
      (m : List (ℕ × ExecutionTaskResult)) (n : ℕ)
      → Erased id l kept
      → Tracked l m n
      → Tracked kept (insert id v m) n × Stays m (insert id v m)
  settle-Tracked {id} v m n e h =
      let (apart, others) = Erased-Apart e h.apart in
      let known = Erased-has (λ i. i < n) e h.below in
      (
        record {
          apart = apart;
          waiting = All-other id v m _ others (Erased-All _ e h.waiting);
          below = Erased-All _ e h.below;
          unknown = λ i le.
              lookup-other id i v m (λ same. omega (arith, known, le, same)) ∙ h.unknown i le;
        },
        Stays-insert id m v
            (Erased-has (λ i. lookup i m ≡ some (result_of i queued "queued")) e h.waiting),
      )
