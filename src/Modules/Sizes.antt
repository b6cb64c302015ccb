-- ===== src/Modules/Sizes.antt =====
-- Lists of ids without repetition are no longer than the lists that hold their elements.
use framekit.Base.{
  suc, ◌≤◌, ◌≡◌, refl, ap, Bool, true, not, ◌&&◌, String, List, [], ◌∷◌, length,
  length-remove_if-le, contains, remove_if, ◌==◌, string_eq, beq_refl, inl, inr, Bool-cases, arith,
}
use framekit.Modules.Edges.{NoDup}

-- The value of a test on one of two equal strings.
pub same_test : (f : String → Bool) (x y : String) → (x == y) ≡ true → f x ≡ f y
same_test f x y h = ap f ((string_eq.is_equal_iff x y).0 h)

remove-shorter :
    (x : String) (ys : List String)
    → contains ys x ≡ true
    → suc (length (remove_if (λ y. y == x) ys)) ≤ length ys
unfolding remove_if contains
remove-shorter x [] h = absurd (cc)
remove-shorter x (y ∷ ys) h =
    ground (arith, remove-shorter x ys, length-remove_if-le (λ y. y == x) ys, h)

contains-remove :
    (x z : String) (ys : List String)
    → contains (remove_if (λ y. y == x) ys) z ≡ (contains ys z && not (z == x))
unfolding remove_if contains
contains-remove x z [] = refl
contains-remove x z (y ∷ ys) = ground (arith, contains-remove x z ys, same_test (λ w. w == x) y z)

pub length-le_of_NoDup :
    (xs ys : List String)
    → NoDup xs
    → ((x : String) → contains xs x ≡ true → contains ys x ≡ true)
    → length xs ≤ length ys
unfolding contains
length-le_of_NoDup [] ys distinct sub = omega arith
length-le_of_NoDup (x ∷ xs) ys distinct sub = omega (
  arith,
  remove-shorter x ys (sub x (ground (arith, beq_refl x))),
  length-le_of_NoDup xs (remove_if (λ y. y == x) ys) distinct.1 (λ z h.
      ground (arith, contains-remove x z ys, sub z, h, same_test (contains xs) z x, distinct.0)),
)

-- As many as there are: then the first list has every element of the second.
pub contains_of_length :
    (xs ys : List String) (y : String)
    → NoDup xs
    → ((x : String) → contains xs x ≡ true → contains ys x ≡ true)
    → length ys ≤ length xs
    → contains ys y ≡ true
    → contains xs y ≡ true
unfolding contains
contains_of_length xs ys y distinct sub enough h = elim (Bool-cases (contains xs y)) [
  | inl here ↦ here
  | inr missing ↦ absurd (
      omega (
        arith,
        enough,
        length-le_of_NoDup (y ∷ xs) ys (missing, distinct)
            (λ x e. ground (arith, sub x, same_test (contains ys) y x, h, e)),
      ))
]
