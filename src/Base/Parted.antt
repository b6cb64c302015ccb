-- ===== src/Base/Parted.antt =====
-- The two parts of a list, each in the list's order, and the reverse of a mapped list.
use mathlib.Core.Path.{◌≡◌, refl, ap, sym, ◌∙◌}
use mathlib.Core.List.{List, [], ◌∷◌, ◌++◌, map, reverse, reverse-cons, map-append}

-- Every element of the list is of the first or of the second kind, and goes to that part.
pub data Parted {A : Type 0} (First Second : A → Type 0) : List A → List A → List A → Type 0 where
  nothing : Parted First Second [] [] []
  in_first :
      {a : A} {l xs ys : List A}
      → First a
      → Parted First Second l xs ys
      → Parted First Second (a ∷ l) (a ∷ xs) ys
  in_second :
      {a : A} {l xs ys : List A}
      → Second a
      → Parted First Second l xs ys
      → Parted First Second (a ∷ l) xs (a ∷ ys)

module _ {A B : Type 0} (f : A → B) where
  pub map-reverse : (l : List A) → map f (reverse l) ≡ reverse (map f l)
  map-reverse [] = refl
  map-reverse (x ∷ xs) =
      ap (map f) (reverse-cons x xs)
      ∙ map-append f (reverse xs) (x ∷ [])
      ∙ ap (λ l. l ++ f x ∷ []) (map-reverse xs)
      ∙ sym (reverse-cons (f x) (map f xs))
