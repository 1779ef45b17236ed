-- ===== src/Cleanup/Tests.antt =====
-- The cleaners over a list of builds, sorted by insertion: the promises of `Sorter` can be kept.
use mathlib.Core.List.{Memᴰ, Permᴰ}
use mathlib.Core.List.Permᴰ
use korifi.Base.Int.{pos}
use korifi.Base.{
  ℕ, suc, ◌-◌, ◌≤◌, ◌≡◌, refl, String, List, [], ◌∷◌, Option, none, some, ◌↔◌, arith, All, length,
  leb, inl, inr, ◌⊎◌, Bool-cases, if◌then◌else◌,
}
use korifi.Kube.Errors.{ApiError}
use korifi.Kube.Listed.{listed_conditions}
use korifi.Cleanup.{Item, NewestFirst, Sorter, clean_items, deletable}
use korifi.Cleanup.Retained.{Deletable, Outlived, clean_items-Outlived}

abbrev put_in : Item → List Item → List Item
put_in x [] = x ∷ []
put_in x (y ∷ ys) =
    let rest = put_in x ys in
    if leb y.creation_timestamp x.creation_timestamp then x ∷ y ∷ ys else y ∷ rest

abbrev sorted : List Item → List Item
sorted [] = []
sorted (x ∷ xs) = put_in x (sorted xs)

first_or_later : (x y : Item) (xs : List Item) → Memᴰ x (y ∷ xs) → (x ≡ y) ⊎ Memᴰ x xs
first_or_later x y xs (Memᴰ.head same) = inl same
first_or_later x y xs (Memᴰ.tail m) = inr m

put_in-Mem : (x y : Item) (xs : List Item) → Memᴰ x (put_in y xs) → (x ≡ y) ⊎ Memᴰ x xs
put_in-Mem x y [] (Memᴰ.head same) = inl same
put_in-Mem x y [] (Memᴰ.tail m) = inr m
put_in-Mem x y (z ∷ xs) m = elim (Bool-cases (leb z.creation_timestamp y.creation_timestamp)) [
  | inl before ↦ first_or_later x y (z ∷ xs) (rw before at m)
  | inr after ↦ elim (first_or_later x z (put_in y xs) (rw after at m)) [
    | inl same ↦ inr (Memᴰ.head same)
    | inr later ↦ elim (put_in-Mem x y xs later) [
      | inl same ↦ inl same
      | inr old ↦ inr (Memᴰ.tail old)
    ]
  ]
]

sorted-Mem : (x : Item) (xs : List Item) → Memᴰ x (sorted xs) → Memᴰ x xs
sorted-Mem x [] m = m
sorted-Mem x (y ∷ xs) m = elim (put_in-Mem x y (sorted xs) m) [
  | inl same ↦ Memᴰ.head same
  | inr later ↦ Memᴰ.tail (sorted-Mem x xs later)
]

put_in-Perm : (x : Item) (xs : List Item) → Permᴰ (put_in x xs) (x ∷ xs)
put_in-Perm x [] = Permᴰ.refl (x ∷ [])
put_in-Perm x (y ∷ xs) = elim (Bool-cases (leb y.creation_timestamp x.creation_timestamp)) [
  | inl before ↦ rw before (Permᴰ.refl (x ∷ y ∷ xs))
  | inr after ↦ rw after (Permᴰ.trans (Permᴰ.cons refl (put_in-Perm x xs)) (Permᴰ.swap refl refl))
]

sorted-Perm : (xs : List Item) → Permᴰ (sorted xs) xs
sorted-Perm [] = Permᴰ.nil
sorted-Perm (x ∷ xs) = Permᴰ.trans (put_in-Perm x (sorted xs)) (Permᴰ.cons refl (sorted-Perm xs))

put_in-length : (x : Item) (xs : List Item) → length (put_in x xs) ≡ suc (length xs)
put_in-length x [] = refl
put_in-length x (y ∷ xs) = ground (arith, put_in-length x xs)

sorted-length : (xs : List Item) → length (sorted xs) ≡ length xs
sorted-length [] = refl
sorted-length (x ∷ xs) = omega (arith, put_in-length x (sorted xs), sorted-length xs)

All-put_in : (P : Item → Type 0) (x : Item) (xs : List Item) → P x → All P xs → All P (put_in x xs)
All-put_in P x [] p all = (p, tt)
All-put_in P x (y ∷ xs) p (first, all) =
    elim (Bool-cases (leb y.creation_timestamp x.creation_timestamp)) [
      | inl before ↦ rw before (p, (first, all))
      | inr after ↦ rw after (first, All-put_in P x xs p all)
    ]

All-trans :
    (m n : ℕ) (xs : List Item)
    → m ≤ n
    → All (λ y. y.creation_timestamp ≤ m) xs
    → All (λ y. y.creation_timestamp ≤ n) xs
All-trans m n [] le all = tt
All-trans m n (y ∷ xs) le (first, all) = (omega (arith, first, le), All-trans m n xs le all)

put_in-NewestFirst : (x : Item) (xs : List Item) → NewestFirst xs → NewestFirst (put_in x xs)
unfolding NewestFirst
put_in-NewestFirst x [] sorted' = (tt, tt)
put_in-NewestFirst x (y ∷ xs) (first, sorted') =
    elim (Bool-cases (leb y.creation_timestamp x.creation_timestamp)) [
      | inl before ↦
          let le : y.creation_timestamp ≤ x.creation_timestamp = ground arith in
          rw before (
            (le, All-trans y.creation_timestamp x.creation_timestamp xs le first),
            (first, sorted'),
          )
      | inr after ↦
          let le : x.creation_timestamp ≤ y.creation_timestamp = ground arith in
          rw after (
            All-put_in (λ z. z.creation_timestamp ≤ y.creation_timestamp) x xs le first,
            put_in-NewestFirst x xs sorted',
          )
    ]

sorted-NewestFirst : (xs : List Item) → NewestFirst (sorted xs)
unfolding NewestFirst
sorted-NewestFirst [] = tt
sorted-NewestFirst (x ∷ xs) = put_in-NewestFirst x (sorted xs) (sorted-NewestFirst xs)

abbrev sorter : Sorter
sorter = record {
  sort = sorted;
  sort-Mem = sorted-Mem;
  sort-Perm = sorted-Perm;
  sort-length = sorted-length;
  sort-NewestFirst = sorted-NewestFirst;
}

abbrev build : String → ℕ → Item
build name time = record {
  name = name;
  creation_timestamp = time;
  conditions =
      record {
        condition_type = "Succeeded";
        status = "True";
        reason = "";
        message = "";
        observed_generation = 1;
        last_transition_time = time;
      }
      ∷ [];
}

abbrev builds : List Item
builds = build "a" 1 ∷ build "current" 2 ∷ build "b" 3 ∷ []

abbrev no_error : Item → Option ApiError
no_error _ = none

abbrev found : List Item
found = deletable listed_conditions sorter no_error "current" "Succeeded" builds

clean_items-Outlived_example :
    (gone : List Item) × (failure : Option ApiError) × (clean_items listed_conditions sorter
        no_error
        (pos 1)
        "current"
        "Succeeded"
        builds
      ≡ some (gone, failure))
    × ((x : Item)
        → Memᴰ x found ↔ Deletable listed_conditions sorter no_error "current" "Succeeded" builds x)
    × ((x : Item)
        → Memᴰ x gone
        → Deletable listed_conditions sorter no_error "current" "Succeeded" builds x
          × Outlived listed_conditions sorter no_error "current" "Succeeded" 1 builds x)
    × (failure ≡ none → length gone ≡ length found - 1)
clean_items-Outlived_example =
    clean_items-Outlived listed_conditions sorter no_error "current" "Succeeded" 1 builds
