-- ===== src/Sort.antt =====
-- The standard library's `sort.Slice`, as the insertion sort that it runs on short slices. What
-- is proved of it holds of any sort: the result is in order and has the same elements.
use crypto_exchange_lab.Prelude.{
  ◌≡◌, refl, Bool, true, false, List, [], ◌∷◌, ◌++◌, if◌then◌else◌, All, arith, Bool-cases, inl,
  inr, ap,
}

module _ {ℓ κ} {A : Type ℓ} (R : A → A → Type κ) where
  -- Each element is related to all behind it.
  abbrev pub Pairwise : List A → Type κ
  Pairwise [] = Unit
  Pairwise (x ∷ xs) = All (R x) xs × Pairwise xs

module _ {ℓ} {A : Type ℓ} (less : A → A → Bool) where
  unfoldable pub insert : A → List A → List A
  insert x [] = x ∷ []
  insert x (y ∷ ys) = if less x y then x ∷ y ∷ ys else y ∷ insert x ys

  unfoldable pub sort_onto : List A → List A → List A
  unfolding insert
  sort_onto acc [] = acc
  sort_onto acc (x ∷ xs) = sort_onto (insert x acc) xs

  unfoldable pub sort_slice : List A → List A
  unfolding sort_onto
  sort_slice xs = sort_onto [] xs

  -- Nothing later in the list is to stand before something earlier.
  abbrev pub IsSorted : List A → Type ℓ
  IsSorted [] = Unit
  IsSorted (x ∷ xs) = All (λ y. less y x ≡ false) xs × IsSorted xs

  module _ {κ} (P : A → Type κ) where
    insert-All : (x : A) (ys : List A) → P x → All P ys → All P (insert x ys)
    unfolding insert
    insert-All x [] p h = (p, tt)
    insert-All x (y ∷ ys) p h = ground (arith, insert-All x ys p h.1)

    sort_onto-All : (acc xs : List A) → All P acc → All P xs → All P (sort_onto acc xs)
    unfolding sort_onto
    sort_onto-All acc [] h k = h
    sort_onto-All acc (x ∷ xs) h k = sort_onto-All (insert x acc) xs (insert-All x acc k.0 h) k.1

    pub sort_slice-All : (xs : List A) → All P xs → All P (sort_slice xs)
    unfolding sort_slice
    sort_slice-All xs h = sort_onto-All [] xs tt h

    from_insert : (x : A) (ys : List A) → All P (insert x ys) → P x × All P ys
    unfolding insert
    from_insert x [] h = h
    from_insert x (y ∷ ys) h = elim (Bool-cases (less x y)) [
      | inl e ↦ rw e at h
      | inr e ↦
          let k : All P (y ∷ insert x ys) = rw e at h in
          let (p, rest) = from_insert x ys k.1 in (p, (k.0, rest))
    ]

    from_sort_onto : (acc xs : List A) → All P (sort_onto acc xs) → All P acc × All P xs
    unfolding sort_onto
    from_sort_onto acc [] h = (h, tt)
    from_sort_onto acc (x ∷ xs) h =
        let (front, back) = from_sort_onto (insert x acc) xs h in
        let (p, rest) = from_insert x acc front in (rest, (p, back))

    -- What holds of each element of the result held before.
    pub All-sort_slice : (xs : List A) → All P (sort_slice xs) → All P xs
    unfolding sort_slice
    All-sort_slice xs h = (from_sort_onto [] xs h).1

  module _ {κ} (R : A → A → Type κ) (swapped : (x y : A) → R x y → R y x) where
    insert-Pairwise :
        (x : A) (ys : List A) → All (R x) ys → Pairwise R ys → Pairwise R (insert x ys)
    unfolding insert
    insert-Pairwise x [] h p = (tt, tt)
    insert-Pairwise x (y ∷ ys) h p = elim (Bool-cases (less x y)) [
      | inl e ↦ rw e (h, p)
      | inr e ↦ rw e (insert-All (R y) x ys (swapped x y h.0) p.0, insert-Pairwise x ys h.1 p.1)
    ]

    insert_apart :
        (x : A) (acc xs : List A)
        → All (R x) xs
        → All (λ y. All (R y) acc) xs
        → All (λ y. All (R y) (insert x acc)) xs
    insert_apart x acc [] h k = tt
    insert_apart x acc (y ∷ ys) h k =
        (insert-All (R y) x acc (swapped x y h.0) k.0, insert_apart x acc ys h.1 k.1)

    sort_onto-Pairwise :
        (acc xs : List A)
        → Pairwise R acc
        → Pairwise R xs
        → All (λ y. All (R y) acc) xs
        → Pairwise R (sort_onto acc xs)
    unfolding sort_onto
    sort_onto-Pairwise acc [] p q h = p
    sort_onto-Pairwise acc (x ∷ xs) p q h =
        sort_onto-Pairwise (insert x acc) xs (insert-Pairwise x acc h.0 p) q.1
          (insert_apart x acc xs q.0 h.1)

    all_trivial : (xs : List A) → All (λ y. All (R y) []) xs
    all_trivial [] = tt
    all_trivial (x ∷ xs) = (tt, all_trivial xs)

    -- Elements that are pairwise related stay so.
    pub sort_slice-Pairwise : (xs : List A) → Pairwise R xs → Pairwise R (sort_slice xs)
    unfolding sort_slice
    sort_slice-Pairwise xs p = sort_onto-Pairwise [] xs tt p (all_trivial xs)

  sort_onto-first :
      (x : A) (acc xs : List A)
      → All (λ y. less y x ≡ false) xs
      → sort_onto (x ∷ acc) xs ≡ x ∷ sort_onto acc xs
  unfolding sort_onto insert
  sort_onto-first x acc [] h = refl
  sort_onto-first x acc (y ∷ ys) h = rw h.0 (sort_onto-first x (insert y acc) ys h.1)

  -- An element with nothing to stand before it, at the front, stays there.
  pub sort_slice-first :
      (x : A) (xs : List A)
      → All (λ y. less y x ≡ false) xs
      → sort_slice (x ∷ xs) ≡ x ∷ sort_slice xs
  unfolding sort_slice insert
  sort_slice-first x xs h = sort_onto-first x [] xs h

  module _ (asym : (x y : A) → less x y ≡ true → less y x ≡ false)
      (trans : (x y z : A) → less x y ≡ true → less y z ≡ true → less x z ≡ true) where
    above :
        (x y : A) (ys : List A)
        → less x y ≡ true
        → All (λ z. less z y ≡ false) ys
        → All (λ z. less z x ≡ false) ys
    above x y [] h k = tt
    above x y (z ∷ zs) h k = (ground (arith, trans z x y), above x y zs h k.1)

    insert-IsSorted : (x : A) (ys : List A) → IsSorted ys → IsSorted (insert x ys)
    unfolding insert
    insert-IsSorted x [] s = (tt, tt)
    insert-IsSorted x (y ∷ ys) s = elim (Bool-cases (less x y)) [
      | inl e ↦ rw e (((asym x y e, above x y ys e s.0), s))
      | inr e ↦ rw e (insert-All (λ z. less z y ≡ false) x ys e s.0, insert-IsSorted x ys s.1)
    ]

    sort_onto-IsSorted : (acc xs : List A) → IsSorted acc → IsSorted (sort_onto acc xs)
    unfolding sort_onto
    sort_onto-IsSorted acc [] s = s
    sort_onto-IsSorted acc (x ∷ xs) s =
        sort_onto-IsSorted (insert x acc) xs (insert-IsSorted x acc s)

    pub sort_slice-IsSorted : (xs : List A) → IsSorted (sort_slice xs)
    unfolding sort_slice
    sort_slice-IsSorted xs = sort_onto-IsSorted [] xs tt

  -- An element that stands before none of a sorted list goes to its end.
  insert_last : (x : A) (ys : List A) → All (λ y. less x y ≡ false) ys → insert x ys ≡ ys ++ x ∷ []
  unfolding insert
  insert_last x [] h = refl
  insert_last x (y ∷ ys) h = rw h.0 (ap (◌∷◌ y) (insert_last x ys h.1))
