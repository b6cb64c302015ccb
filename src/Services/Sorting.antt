-- ===== src/Services/Sorting.antt =====
-- Sorting the owned services by their numbers: `std::sort` in `BeginTeardown`.
use mathlib.Core.List.{Permᴰ, reverse-cons}
use framekit.Base.{
  ℕ, ◌<◌, ◌≡◌, refl, ◌≢◌, ap, sym, subst, ◌∙◌, List, [], ◌∷◌, ◌++◌, reverse, All, All-append,
  if◌then◌else◌, if_cases, arith,
}
use framekit.Base.Falling.{Ascending}
use framekit.Services.Registered.{numbers}
use framekit.Services.{
  ServiceKey, ServiceEntry, OrderedEntry, is_external, ordered_entry, owned_entries,
  insert_later_first, sort_later_first,
}

insert-insert :
    (x y : OrderedEntry) (l : List OrderedEntry)
    → x.sequence ≢ y.sequence
    → insert_later_first x (insert_later_first y l) ≡ insert_later_first y (insert_later_first x l)
unfolding insert_later_first
insert-insert x y [] h = ground arith
insert-insert x y (z ∷ l) h = ground (arith, insert-insert x y l h)

insert-last :
    (x : OrderedEntry) (l : List OrderedEntry)
    → All (λ y. x.sequence < y.sequence) l
    → insert_later_first x l ≡ l ++ x ∷ []
unfolding insert_later_first
insert-last x [] h = refl
insert-last x (y ∷ l) h = ground (arith, insert-last x l h.1)

-- The sequence numbers rise along a list of entries.
abbrev pub Rising : List OrderedEntry → Type 0
Rising [] = Unit
Rising (x ∷ xs) = All (λ y. x.sequence < y.sequence) xs × Rising xs

All-reverse : (P : OrderedEntry → Type 0) (l : List OrderedEntry) → All P l → All P (reverse l)
All-reverse P [] h = tt
All-reverse P (x ∷ xs) h =
    subst (All P) (sym (reverse-cons x xs))
      (All-append P (reverse xs) (x ∷ []) (All-reverse P xs h.1) (h.0, tt))

pub sort-Rising : (l : List OrderedEntry) → Rising l → sort_later_first l ≡ reverse l
unfolding sort_later_first
sort-Rising [] h = refl
sort-Rising (x ∷ xs) h =
    ap (insert_later_first x) (sort-Rising xs h.1)
    ∙ insert-last x (reverse xs) (All-reverse _ xs h.0)
    ∙ sym (reverse-cons x xs)

module _ {S : Type 0} where
  abbrev pub Apart : List (ServiceKey × ServiceEntry S) → Type 0
  Apart [] = Unit
  Apart (x ∷ xs) = All (λ y. x.1.sequence ≢ y.1.sequence) xs × Apart xs

  All-Perm :
      {l m : List (ServiceKey × ServiceEntry S)} (P : ServiceKey × ServiceEntry S → Type 0)
      → Permᴰ l m
      → All P l
      → All P m
  All-Perm P Permᴰ.nil h = h
  All-Perm P (Permᴰ.cons e d) h = (subst P e h.0, All-Perm P d h.1)
  All-Perm P (Permᴰ.swap e f) h = (subst P f h.1.0, (subst P e h.0, h.1.1))
  All-Perm P (Permᴰ.trans c d) h = All-Perm P d (All-Perm P c h)

  Apart-Perm : {l m : List (ServiceKey × ServiceEntry S)} → Permᴰ l m → Apart l → Apart m
  Apart-Perm Permᴰ.nil h = h
  Apart-Perm (Permᴰ.cons {a} {b} {l₁} {l₂} e d) h = (
    All-Perm _ d (subst (λ c. All (λ y. c.1.sequence ≢ y.1.sequence) l₁) e h.0),
    Apart-Perm d h.1,
  )
  Apart-Perm (Permᴰ.swap {a} {b} {a'} {b'} {l} e f) h =
      subst (λ c. Apart (a' ∷ c ∷ l)) e
        (subst (λ c. Apart (c ∷ a ∷ l)) f ((λ same. h.0.0 (sym same), h.1.0), (h.0.1, h.1.1)))
  Apart-Perm (Permᴰ.trans c d) h = Apart-Perm d (Apart-Perm c h)

  abbrev pub sorted : List (ServiceKey × ServiceEntry S) → List OrderedEntry
  sorted l = sort_later_first (owned_entries l)

  abbrev placed : ServiceKey × ServiceEntry S → List OrderedEntry → List OrderedEntry
  placed (k, entry) l =
      if is_external entry.ownership then l else insert_later_first (ordered_entry k entry) l

  sorted-cons :
      (p : ServiceKey × ServiceEntry S) (l : List (ServiceKey × ServiceEntry S))
      → sorted (p ∷ l) ≡ placed p (sorted l)
  unfolding owned_entries sort_later_first
  sorted-cons p l = ground arith

  placed-placed :
      (p q : ServiceKey × ServiceEntry S) (l : List OrderedEntry)
      → p.1.sequence ≢ q.1.sequence
      → placed p (placed q l) ≡ placed q (placed p l)
  placed-placed p q l h =
      ground (arith, insert-insert (ordered_entry p.0 p.1) (ordered_entry q.0 q.1) l h)

  sorted-swap :
      (p q : ServiceKey × ServiceEntry S) (l : List (ServiceKey × ServiceEntry S))
      → p.1.sequence ≢ q.1.sequence
      → sorted (p ∷ q ∷ l) ≡ sorted (q ∷ p ∷ l)
  sorted-swap p q l h =
      sorted-cons p (q ∷ l)
      ∙ ap (placed p) (sorted-cons q l)
      ∙ placed-placed p q (sorted l) h
      ∙ sym (ap (placed q) (sorted-cons p l))
      ∙ sym (sorted-cons q (p ∷ l))

  pub sorted-Perm :
      {l m : List (ServiceKey × ServiceEntry S)} → Permᴰ l m → Apart l → sorted l ≡ sorted m
  sorted-Perm Permᴰ.nil h = refl
  sorted-Perm (Permᴰ.cons {a} {b} {l₁} {l₂} e d) h =
      sorted-cons a l₁
      ∙ ap (placed a) (sorted-Perm d h.1)
      ∙ sym (sorted-cons a l₂)
      ∙ ap (λ c. sorted (c ∷ l₂)) e
  sorted-Perm (Permᴰ.swap {a} {b} {a'} {b'} {l} e f) h =
      sorted-swap a b l h.0.0 ∙ ap (λ c. sorted (c ∷ a ∷ l)) f ∙ ap (λ c. sorted (a' ∷ c ∷ l)) e
  sorted-Perm (Permᴰ.trans c d) h = sorted-Perm c h ∙ sorted-Perm d (Apart-Perm c h)

  pub Apart-Ascending : (l : List (ServiceKey × ServiceEntry S)) → Ascending (numbers l) → Apart l
  Apart-Ascending [] h = tt
  Apart-Ascending ((k, e) ∷ l) h = (all_apart l e.sequence h.0, Apart-Ascending l h.1)
    where
      all_apart :
          (l : List (ServiceKey × ServiceEntry S)) (n : ℕ)
          → All (λ m. n < m) (numbers l)
          → All (λ y. n ≢ y.1.sequence) l
      all_apart [] n h = tt
      all_apart ((k, e) ∷ l) n h = (λ same. omega (arith, same), all_apart l n h.1)

  owned-above :
      (l : List (ServiceKey × ServiceEntry S)) (n : ℕ)
      → All (λ m. n < m) (numbers l)
      → All (λ y. n < y.sequence) (owned_entries l)
  unfolding owned_entries
  owned-above [] n h = tt
  owned-above ((k, e) ∷ l) n h =
      if_cases (All (λ y. n < y.sequence)) (is_external e.ownership) (λ _. owned-above l n h.1)
        (λ _. (h.0, owned-above l n h.1))

  pub owned-Rising :
      (l : List (ServiceKey × ServiceEntry S)) → Ascending (numbers l) → Rising (owned_entries l)
  unfolding owned_entries
  owned-Rising [] h = tt
  owned-Rising ((k, e) ∷ l) h =
      if_cases Rising (is_external e.ownership) (λ _. owned-Rising l h.1)
        (λ _. (owned-above l e.sequence h.0, owned-Rising l h.1))
