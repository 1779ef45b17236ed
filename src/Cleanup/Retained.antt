-- ===== src/Cleanup/Retained.antt =====
-- What the cleaners delete, and what they retain (controllers/cleanup).
use mathlib.Core.List.{Memᴰ, Permᴰ}
use korifi.Base.Int.{pos}
use korifi.Base.{
  ℕ, zero, suc, ◌-◌, ◌≤◌, ◌≡◌, refl, ◌≢◌, ap, ◌∙◌, sym, subst, String, List, [], ◌∷◌, ◌++◌, ◌↔◌,
  some, Bool, true, false, Option, none, ◌==◌, eq_iff, arith, All, length, inl, inr, ◌⊎◌,
  Bool-cases, Option-cases,
}
use korifi.Kube.Errors.{ApiError}
use korifi.Kube.Conditions.{ConditionsApi}
use korifi.Cleanup.{Item, NewestFirst, Sorter, drop, delete_all, deletable, clean_items}

take : ℕ → List Item → List Item
take zero xs = []
take (suc n) [] = []
take (suc n) (x ∷ xs) = x ∷ take n xs

take-drop : (n : ℕ) (xs : List Item) → take n xs ++ drop n xs ≡ xs
unfolding take
take-drop zero xs = refl
take-drop (suc n) [] = refl
take-drop (suc n) (x ∷ xs) = ap (λ l. x ∷ l) (take-drop n xs)

All-Mem : (P : Item → Type 0) (x : Item) (xs : List Item) → All P xs → Memᴰ x xs → P x
All-Mem P x [] all m = elim m [ ]
All-Mem P x (y ∷ xs) (first, all) (Memᴰ.head same) = subst P (sym same) first
All-Mem P x (y ∷ xs) (first, all) (Memᴰ.tail m) = All-Mem P x xs all m

drop-Mem : (n : ℕ) (x : Item) (xs : List Item) → Memᴰ x (drop n xs) → Memᴰ x xs
drop-Mem zero x xs m = m
drop-Mem (suc n) x [] m = m
drop-Mem (suc n) x (y ∷ xs) m = Memᴰ.tail (drop-Mem n x xs m)

-- A retained item: one of the list, and at least as new.
Newer : List Item → Item → Item → Type 0
Newer xs x k = Memᴰ k xs × (x.creation_timestamp ≤ k.creation_timestamp)

Newer-weaken : (x y : Item) (xs ks : List Item) → All (Newer xs x) ks → All (Newer (y ∷ xs) x) ks
unfolding Newer
Newer-weaken x y xs [] all = tt
Newer-weaken x y xs (k ∷ ks) ((m, new), all) = ((Memᴰ.tail m, new), Newer-weaken x y xs ks all)

take-Newer :
    (n : ℕ) (x : Item) (xs : List Item)
    → NewestFirst xs
    → Memᴰ x (drop n xs)
    → All (Newer xs x) (take n xs) × (length (take n xs) ≡ n)
unfolding NewestFirst Newer take
take-Newer zero x xs sorted m = (tt, refl)
take-Newer (suc n) x [] sorted m = elim m [ ]
take-Newer (suc n) x (y ∷ xs) (first, sorted) m =
    let (all, size) = take-Newer n x xs sorted m in
    let newer =
      All-Mem (λ z. z.creation_timestamp ≤ y.creation_timestamp) x xs first (drop-Mem n x xs m) in
    (((Memᴰ.head refl, newer), Newer-weaken x y xs (take n xs) all), omega (arith, size))

Mem-cases : (x y : Item) (xs : List Item) → Memᴰ x (y ∷ xs) → (x ≡ y) ⊎ Memᴰ x xs
Mem-cases x y xs (Memᴰ.head same) = inl same
Mem-cases x y xs (Memᴰ.tail m) = inr m

delete_all-Mem :
    (delete : Item → Option ApiError) (x : Item) (xs : List Item)
    → Memᴰ x (delete_all delete xs).0
    → Memᴰ x xs
unfolding delete_all
delete_all-Mem delete x [] m = m
delete_all-Mem delete x (y ∷ xs) m = elim (Option-cases (delete y)) [
  | inr (e, failed) ↦ elim (rw failed at m) [ ]
  | inl done ↦ elim (Mem-cases x y (delete_all delete xs).0 (rw done at m)) [
    | inl same ↦ Memᴰ.head same
    | inr later ↦ Memᴰ.tail (delete_all-Mem delete x xs later)
  ]
]

delete_all-all :
    (delete : Item → Option ApiError) (xs : List Item)
    → (delete_all delete xs).1 ≡ none
    → (delete_all delete xs).0 ≡ xs
unfolding delete_all
delete_all-all delete [] h = refl
delete_all-all delete (y ∷ xs) h = elim (Option-cases (delete y)) [
  | inr (e, failed) ↦ cc (rw failed at h)
  | inl done ↦ rw done (ap (λ l. y ∷ l) (delete_all-all delete xs (rw done at h)))
]

absurd_true : {P : Type 0} {b : Bool} → b ≡ false → b ≡ true → P
absurd_true h k = cc

drop-length : (n : ℕ) (xs : List Item) → length (drop n xs) ≡ length xs - n
drop-length zero xs = omega arith
drop-length (suc n) [] = omega arith
drop-length (suc n) (x ∷ xs) = omega (arith, drop-length n xs)

All-map : (P Q : Item → Type 0) (xs : List Item) → ((x : Item) → P x → Q x) → All P xs → All Q xs
All-map P Q [] f all = tt
All-map P Q (x ∷ xs) f (first, all) = (f x first, All-map P Q xs f all)

module _ (meta : ConditionsApi) (sorter : Sorter) (delete : Item → Option ApiError)
    (current condition_type : String) where
  open meta use {is_status_condition_true}

  -- An item of the list that is not the current one, and whose condition is true.
  pub Deletable : List Item → Item → Type 0
  Deletable items x =
      Memᴰ x items
      × (x.name ≢ current)
      × (is_status_condition_true x.conditions condition_type ≡ true)

  deletable-Deletable :
      (x : Item) (items : List Item)
      → Memᴰ x (deletable meta sorter delete current condition_type items)
      → Deletable items x
  unfolding deletable Deletable
  deletable-Deletable x [] m = elim m [ ]
  deletable-Deletable x (y ∷ items) m =
      let later : Memᴰ x (deletable meta sorter delete current condition_type items)
          → Deletable (y ∷ items) x =
        λ m'. let (at, other, is) = deletable-Deletable x items m' in (Memᴰ.tail at, other, is) in
      elim (Bool-cases (y.name == current)) [
        | inl this ↦ later (rw this at m)
        | inr other ↦ elim (Bool-cases (is_status_condition_true y.conditions condition_type)) [
          | inr isnt ↦ later (rw (other, isnt) at m)
          | inl is ↦ elim (Mem-cases x y _ (rw (other, is) at m)) [
            | inr m' ↦ later m'
            | inl same ↦ (
              Memᴰ.head same,
              λ e.
                  absurd_true (other)
                    ((eq_iff y.name current).1 (ap (λ (i : Item). i.name) (sym same) ∙ e)),
              ap (λ (i : Item). is_status_condition_true i.conditions condition_type) same ∙ is,
            )
          ]
        ]
      ]

  Deletable-deletable :
      (x : Item) (items : List Item)
      → Deletable items x
      → Memᴰ x (deletable meta sorter delete current condition_type items)
  unfolding deletable Deletable
  Deletable-deletable x [] (m, other, is) = elim m [ ]
  Deletable-deletable x (y ∷ items) (m, other, is) = elim (Mem-cases x y items m) [
    | inl same ↦
        let not_current : (y.name == current) ≡ false =
          ground (arith, eq_iff y.name current, other, ap (λ (i : Item). i.name) same) in
        let holds : is_status_condition_true y.conditions condition_type ≡ true =
          sym (ap (λ (i : Item). is_status_condition_true i.conditions condition_type) same) ∙ is in
        rw (not_current, holds) (Memᴰ.head same)
    | inr later ↦
        let m' = Deletable-deletable x items (later, other, is) in
        elim (Bool-cases (y.name == current)) [
          | inl this ↦ rw this m'
          | inr other' ↦ elim (Bool-cases (is_status_condition_true y.conditions condition_type)) [
            | inr isnt ↦ rw (other', isnt) m'
            | inl is' ↦ rw (other', is') (Memᴰ.tail m')
          ]
        ]
  ]

  -- The deletable items are, in some order, as many as are to be retained, each at least as new as
  -- this one, and others, of which this is one.
  pub Outlived : ℕ → List Item → Item → Type 0
  Outlived retained items x =
      (spare rest : List Item) × (length spare ≡ retained)
      × Permᴰ (spare ++ rest) (deletable meta sorter delete current condition_type items)
      × Memᴰ x rest
      × All (λ k. x.creation_timestamp ≤ k.creation_timestamp) spare

  -- With a number of items to retain that is not negative, the cleaner does not panic. The
  -- deletable items are those of the list that are not the current one and whose condition is
  -- true. An item that is deleted is one of them, and beside it as many other deletable items as
  -- are to be retained, counted with their repetitions, are at least as new. Where no deletion
  -- fails, all but that many are deleted.
  pub clean_items-Outlived :
      (retained : ℕ) (items : List Item)
      → (gone : List Item) × (failure : Option ApiError) × (clean_items meta sorter delete
            (pos retained)
            current
            condition_type
            items
          ≡ some (gone, failure))
        × ((x : Item)
            → Memᴰ x (deletable meta sorter delete current condition_type items)
              ↔ Deletable items x)
        × ((x : Item) → Memᴰ x gone → Deletable items x × Outlived retained items x)
        × (failure ≡ none
            → length gone
              ≡ length (deletable meta sorter delete current condition_type items) - retained)
  unfolding clean_items Outlived Newer
  clean_items-Outlived retained items =
      let found = deletable meta sorter delete current condition_type items in
      let sorted = sorter.sort found in
      let all : Permᴰ (take retained sorted ++ drop retained sorted) found =
        subst (λ l. Permᴰ l found) (sym (take-drop retained sorted)) (sorter.sort-Perm found) in
      (
        (delete_all delete (drop retained sorted)).0,
        (delete_all delete (drop retained sorted)).1,
        refl,
        λ x. (deletable-Deletable x items, Deletable-deletable x items),
        λ x m.
            let left = delete_all-Mem delete x (drop retained sorted) m in
            let (newer, size) = take-Newer retained x sorted (sorter.sort-NewestFirst found) left in
            (
              deletable-Deletable x items
                  (sorter.sort-Mem x found (drop-Mem retained x sorted left)),
              (
                take retained sorted,
                drop retained sorted,
                size,
                all,
                left,
                All-map (Newer sorted x) _ (take retained sorted) (λ k (at, new). new) newer,
              ),
            ),
        λ h.
            ap length (delete_all-all delete (drop retained sorted) h)
            ∙ drop-length retained sorted
            ∙ ap (λ n. n - retained) (sorter.sort-length found),
      )
