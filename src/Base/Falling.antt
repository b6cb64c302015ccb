-- ===== src/Base/Falling.antt =====
-- Sorting by falling numbers, and lists of which the numbers rise.
use Prim.Native.Nat.{ℕ, ◌<◌}
use mathlib.Core.Path.{◌≡◌, refl, ap, sym, subst, ◌∙◌}
use mathlib.Core.Logic.{◌≢◌}
use mathlib.Core.List.{List, [], ◌∷◌, ◌++◌, map, reverse, reverse-cons, Permᴰ}
use native.Mathlib.Omega.{arith}
use framekit.Base.Tests.{ltb, if◌then◌else◌}
use framekit.Base.Lists.{All, All-append}

abbrev pub Ascending : List ℕ → Type 0
Ascending [] = Unit {0}
Ascending (n ∷ ns) = All (λ m. n < m) ns × Ascending ns

pub Ascending-snoc :
    (ns : List ℕ) (n : ℕ) → Ascending ns → All (λ m. m < n) ns → Ascending (ns ++ n ∷ [])
Ascending-snoc [] n h below = (tt, tt)
Ascending-snoc (m ∷ ns) n h below =
    (All-append _ ns (n ∷ []) h.0 (below.0, tt), Ascending-snoc ns n h.1 below.1)

All-reverse : {A : Type 0} (P : A → Type 0) (l : List A) → All P l → All P (reverse l)
All-reverse P [] h = tt
All-reverse P (x ∷ xs) h =
    subst (All P) (sym (reverse-cons x xs))
      (All-append P (reverse xs) (x ∷ []) (All-reverse P xs h.1) (h.0, tt))

module _ {A : Type 0} (number : A → ℕ) where
  unfoldable pub insert_falling : A → List A → List A
  insert_falling e [] = e ∷ []
  insert_falling e (x ∷ xs) =
      if ltb (number e) (number x) then x ∷ insert_falling e xs else e ∷ x ∷ xs

  unfoldable pub sort_falling : List A → List A
  sort_falling [] = []
  sort_falling (x ∷ xs) = insert_falling x (sort_falling xs)

  insert-insert :
      (x y : A) (l : List A)
      → number x ≢ number y
      → insert_falling x (insert_falling y l) ≡ insert_falling y (insert_falling x l)
  unfolding insert_falling
  insert-insert x y [] h = ground arith
  insert-insert x y (z ∷ l) h = ground (arith, insert-insert x y l h)

  insert-last :
      (x : A) (l : List A) → All (λ y. number x < number y) l → insert_falling x l ≡ l ++ x ∷ []
  unfolding insert_falling
  insert-last x [] h = refl
  insert-last x (y ∷ l) h = ground (arith, insert-last x l h.1)

  All-number : (P : ℕ → Type 0) (l : List A) → All P (map number l) → All (λ y. P (number y)) l
  All-number P [] h = tt
  All-number P (x ∷ l) h = (h.0, All-number P l h.1)

  -- A list with rising numbers is reversed.
  pub sort-reverse : (l : List A) → Ascending (map number l) → sort_falling l ≡ reverse l
  unfolding sort_falling
  sort-reverse [] h = refl
  sort-reverse (x ∷ xs) h =
      ap (insert_falling x) (sort-reverse xs h.1)
      ∙ insert-last x (reverse xs) (All-reverse _ xs (All-number _ xs h.0))
      ∙ sym (reverse-cons x xs)

  abbrev Apart : List A → Type 0
  Apart [] = Unit {0}
  Apart (x ∷ xs) = All (λ y. number x ≢ number y) xs × Apart xs

  All-Perm : {l m : List A} (P : A → Type 0) → Permᴰ l m → All P l → All P m
  All-Perm P Permᴰ.nil h = h
  All-Perm P (Permᴰ.cons e d) h = (subst P e h.0, All-Perm P d h.1)
  All-Perm P (Permᴰ.swap e f) h = (subst P f h.1.0, (subst P e h.0, h.1.1))
  All-Perm P (Permᴰ.trans c d) h = All-Perm P d (All-Perm P c h)

  Apart-Perm : {l m : List A} → Permᴰ l m → Apart l → Apart m
  Apart-Perm Permᴰ.nil h = h
  Apart-Perm (Permᴰ.cons {a} {b} {l₁} {l₂} e d) h =
      (All-Perm _ d (subst (λ c. All (λ y. number c ≢ number y) l₁) e h.0), Apart-Perm d h.1)
  Apart-Perm (Permᴰ.swap {a} {b} {a'} {b'} {l} e f) h =
      subst (λ c. Apart (a' ∷ c ∷ l)) e
        (subst (λ c. Apart (c ∷ a ∷ l)) f ((λ same. h.0.0 (sym same), h.1.0), (h.0.1, h.1.1)))
  Apart-Perm (Permᴰ.trans c d) h = Apart-Perm d (Apart-Perm c h)

  sort-Perm : {l m : List A} → Permᴰ l m → Apart l → sort_falling l ≡ sort_falling m
  unfolding sort_falling
  sort-Perm Permᴰ.nil h = refl
  sort-Perm (Permᴰ.cons {a} {b} {l₁} {l₂} e d) h =
      ap (insert_falling a) (sort-Perm d h.1) ∙ ap (λ c. insert_falling c (sort_falling l₂)) e
  sort-Perm (Permᴰ.swap {a} {b} {a'} {b'} {l} e f) h =
      insert-insert a b (sort_falling l) h.0.0
      ∙ ap (λ c. insert_falling c (insert_falling a (sort_falling l))) f
      ∙ ap (λ c. insert_falling a' (insert_falling c (sort_falling l))) e
  sort-Perm (Permᴰ.trans c d) h = sort-Perm c h ∙ sort-Perm d (Apart-Perm c h)

  Apart-Ascending : (l : List A) → Ascending (map number l) → Apart l
  Apart-Ascending [] h = tt
  Apart-Ascending (x ∷ l) h = (all_apart l (number x) h.0, Apart-Ascending l h.1)
    where
      all_apart : (l : List A) (n : ℕ) → All (λ m. n < m) (map number l) → All (λ y. n ≢ number y) l
      all_apart [] n h = tt
      all_apart (y ∷ l) n h = (λ same. omega (arith, same), all_apart l n h.1)

  -- In whatever order a list with rising numbers is visited, sorting gives its reverse.
  pub sort-visited :
      {l m : List A} → Permᴰ l m → Ascending (map number l) → sort_falling m ≡ reverse l
  sort-visited {l} visited up = sym (sort-Perm visited (Apart-Ascending l up)) ∙ sort-reverse l up
