-- ===== src/Prelude/Sort.antt =====
-- `sort_by` of the standard library: a stable sort by a comparison, here `le a b` for "not greater".
use mathlib.Core.Path.{◌≡◌, refl}
use mathlib.Core.Bool.{Bool, true, false}
use mathlib.Core.Logic.{inl, inr}
use mathlib.Core.List.{List, [], ◌∷◌, ◌++◌}
use codequery.Prelude.Tests.{if◌then◌else◌, Bool-cases}
use codequery.Prelude.Lists.{All, All-append, reverse, All-In, All-members, In, here, there, take}
use Prim.Native.Nat.{ℕ, zero, suc}

module _ {ℓ} {A : Type ℓ} (le : A → A → Bool) where
  abbrev pub insert_sorted : A → List A → List A
  insert_sorted x [] = x ∷ []
  insert_sorted x (y ∷ ys) =
      let rest = insert_sorted x ys in if le x y then x ∷ y ∷ ys else y ∷ rest

  unfoldable pub sort_by : List A → List A
  sort_by [] = []
  sort_by (x ∷ xs) = insert_sorted x (sort_by xs)

  abbrev pub IsSorted : List A → Type 0
  IsSorted [] = Unit
  IsSorted (x ∷ xs) = All (λ y. le x y ≡ true) xs × IsSorted xs

  All-insert_sorted {κ} :
      (P : A → Type κ) (x : A) (xs : List A) → P x → All P xs → All P (insert_sorted x xs)
  All-insert_sorted P x [] px h = (px, tt)
  All-insert_sorted P x (y ∷ ys) px h = elim (Bool-cases (le x y)) [
    | inl e ↦ rw e (px, (h.0, h.1))
    | inr e ↦ rw e (h.0, All-insert_sorted P x ys px h.1)
  ]

  pub All-sort_by {κ} : (P : A → Type κ) (xs : List A) → All P xs → All P (sort_by xs)
  unfolding sort_by
  All-sort_by P [] h = h
  All-sort_by P (x ∷ xs) h = All-insert_sorted P x (sort_by xs) h.0 (All-sort_by P xs h.1)

  pub sort_by_sorted : (xs : List A) → IsSorted xs → sort_by xs ≡ xs
  unfolding sort_by
  sort_by_sorted [] h = refl
  sort_by_sorted (x ∷ []) h = refl
  sort_by_sorted (x ∷ y ∷ ys) h = rw (sort_by_sorted (y ∷ ys) h.1, h.0.0)

  In-insert_sorted_self : (x : A) (ys : List A) → In x (insert_sorted x ys)
  In-insert_sorted_self x [] = here
  In-insert_sorted_self x (y ∷ ys) = elim (Bool-cases (le x y)) [
    | inl e ↦ rw e here
    | inr e ↦ rw e (there (In-insert_sorted_self x ys))
  ]

  In-insert_sorted : {a : A} (x : A) {ys : List A} → In a ys → In a (insert_sorted x ys)
  In-insert_sorted x {ys = []} m = elim m [ ]
  In-insert_sorted x {ys = y ∷ ys} here = elim (Bool-cases (le x y)) [
    | inl e ↦ rw e (there here)
    | inr e ↦ rw e here
  ]
  In-insert_sorted x {ys = y ∷ ys} (there m) = elim (Bool-cases (le x y)) [
    | inl e ↦ rw e (there (there m))
    | inr e ↦ rw e (there (In-insert_sorted x m))
  ]

  pub In-sort_by : {a : A} {xs : List A} → In a xs → In a (sort_by xs)
  unfolding sort_by
  In-sort_by {xs = []} m = elim m [ ]
  In-sort_by {xs = x ∷ xs} here = In-insert_sorted_self x (sort_by xs)
  In-sort_by {xs = x ∷ xs} (there m) = In-insert_sorted x (In-sort_by m)

  pub sort_by-In : {a : A} (xs : List A) → In a (sort_by xs) → In a xs
  sort_by-In xs m = All-In (λ x. In x xs) m (All-sort_by (λ x. In x xs) xs (All-members xs))

  pub All-take : (P : A → Type 0) (n : ℕ) (xs : List A) → All P xs → All P (take n xs)
  All-take P zero xs h = tt
  All-take P (suc n) [] h = tt
  All-take P (suc n) (x ∷ xs) h = (h.0, All-take P n xs h.1)

  pub take-IsSorted : (n : ℕ) (xs : List A) → IsSorted xs → IsSorted (take n xs)
  take-IsSorted zero xs h = tt
  take-IsSorted (suc n) [] h = tt
  take-IsSorted (suc n) (x ∷ xs) h = (All-take _ n xs h.0, take-IsSorted n xs h.1)

  insert_sorted-last :
      (x : A) (ys : List A) → All (λ y. le x y ≡ false) ys → insert_sorted x ys ≡ ys ++ x ∷ []
  insert_sorted-last x [] h = refl
  insert_sorted-last x (y ∷ ys) h = rw (h.0, insert_sorted-last x ys h.1)

  abbrev pub IsDescending : List A → Type 0
  IsDescending [] = Unit
  IsDescending (x ∷ xs) = All (λ y. le x y ≡ false) xs × IsDescending xs

  All-reverse : (P : A → Type 0) (xs : List A) → All P xs → All P (reverse xs)
  All-reverse P [] h = tt
  All-reverse P (x ∷ xs) h = All-append P (reverse xs) (x ∷ []) (All-reverse P xs h.1) (h.0, tt)

  -- Sorting a list that stands in the strict opposite order reverses it.
  pub sort_by_descending : (xs : List A) → IsDescending xs → sort_by xs ≡ reverse xs
  unfolding sort_by
  sort_by_descending [] h = refl
  sort_by_descending (x ∷ xs) h =
      rw (sort_by_descending xs h.1)
        (insert_sorted-last x (reverse xs) (All-reverse (λ y. le x y ≡ false) xs h.0))

  -- What `Ord` promises of a comparison.
  pub record IsOrder : Type ℓ where
    pub total : (a b : A) → le a b ≡ false → le b a ≡ true
    pub trans : (a b c : A) → le a b ≡ true → le b c ≡ true → le a c ≡ true

  module _ (o : IsOrder) where
    le-All :
        (x y : A) (ys : List A)
        → le x y ≡ true
        → All (λ z. le y z ≡ true) ys
        → All (λ z. le x z ≡ true) ys
    le-All x y [] h hs = tt
    le-All x y (z ∷ zs) h hs = (o.trans x y z h hs.0, le-All x y zs h hs.1)

    insert_sorted-IsSorted : (x : A) (xs : List A) → IsSorted xs → IsSorted (insert_sorted x xs)
    insert_sorted-IsSorted x [] h = (tt, tt)
    insert_sorted-IsSorted x (y ∷ ys) h = elim (Bool-cases (le x y)) [
      | inl e ↦ rw e ((e, le-All x y ys e h.0), h)
      | inr e ↦ rw e (
        All-insert_sorted (λ z. le y z ≡ true) x ys (o.total x y e) h.0,
        insert_sorted-IsSorted x ys h.1,
      )
    ]

    pub sort_by-IsSorted : (xs : List A) → IsSorted (sort_by xs)
    unfolding sort_by
    sort_by-IsSorted [] = tt
    sort_by-IsSorted (x ∷ xs) = insert_sorted-IsSorted x (sort_by xs) (sort_by-IsSorted xs)
