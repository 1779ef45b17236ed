-- ===== src/Cleanup.antt =====
-- controllers/cleanup/build_cleaner.go and controllers/cleanup/package_cleaner.go: the deletion of an
-- app's old builds and packages. `sort.Slice` is the library's: `Sorter` is what it promises for the
-- comparison that puts newer items first. Times of creation are numbers.
pub mod Retained
pub mod Tests
use mathlib.Core.List.{Memᴰ, Permᴰ}
use korifi.Base.Int.{ℤ, pos, negsuc}
use korifi.Base.{
  ℕ, zero, suc, ◌≤◌, ◌≡◌, String, List, [], ◌∷◌, Bool, not, Option, none, some, ◌==◌, All, length,
  if◌then◌else◌,
}
use korifi.Kube.Errors.{ApiError, Result, ok, err}
use korifi.Kube.Conditions.{Condition, ConditionsApi}
use korifi.Kube.Reconcile.{ready_condition}

-- A build or a package.
pub record Item : Type 0 where
  pub name : String
  pub creation_timestamp : ℕ
  pub conditions : List Condition

unfoldable pub NewestFirst : List Item → Type 0
NewestFirst [] = Unit
NewestFirst (x ∷ xs) = All (λ y. y.creation_timestamp ≤ x.creation_timestamp) xs × NewestFirst xs

pub record Sorter : Type 0 where
  pub sort : List Item → List Item
  pub sort-Mem : (x : Item) (xs : List Item) → Memᴰ x (sort xs) → Memᴰ x xs
  pub sort-Perm : (xs : List Item) → Permᴰ (sort xs) xs
  pub sort-length : (xs : List Item) → length (sort xs) ≡ length xs
  pub sort-NewestFirst : (xs : List Item) → NewestFirst (sort xs)

abbrev pub drop : ℕ → List Item → List Item
drop zero xs = xs
drop (suc n) [] = []
drop (suc n) (x ∷ xs) = drop n xs

abbrev after : Item → Option ApiError → List Item × Option ApiError → List Item × Option ApiError
after x none rest = (x ∷ rest.0, rest.1)
after x (some e) rest = ([], some e)

-- The loop over the items that are left: those that were deleted, and the error that ended it.
unfoldable pub delete_all : (Item → Option ApiError) → List Item → List Item × Option ApiError
delete_all delete [] = ([], none)
delete_all delete (x ∷ xs) = after x (delete x) (delete_all delete xs)

-- The items that were deleted and the error; `none` for a panic.
abbrev pub Cleaned : Type 0
Cleaned = Option (List Item × Option ApiError)

module _ (meta : ConditionsApi) (sorter : Sorter) (delete : Item → Option ApiError) where
  -- Neither the current item nor one whose condition is not true.
  unfoldable pub deletable : String → String → List Item → List Item
  deletable current condition_type [] = []
  deletable current condition_type (x ∷ xs) =
      let rest = deletable current condition_type xs in
      if x.name == current
      then rest
      else if not (meta.is_status_condition_true x.conditions condition_type)
      then rest
      else x ∷ rest

  -- From index `retained` on; `none` where a negative index panics.
  abbrev from_index : ℤ → List Item → Cleaned
  from_index (pos n) found = some (delete_all delete (drop n found))
  from_index (negsuc n) found = none

  unfoldable pub clean_items : ℤ → String → String → List Item → Cleaned
  unfolding delete_all deletable
  clean_items retained current condition_type items =
      from_index retained (sorter.sort (deletable current condition_type items))

  abbrev listed : ℤ → String → String → Result ApiError (List Item) → Cleaned
  listed retained current condition_type (err e) = some ([], some e)
  listed retained current condition_type (ok items) =
      clean_items retained current condition_type items

  -- By the name of the app's current droplet, and the builds of the app.
  unfoldable pub clean_builds : ℤ → Result ApiError String → Result ApiError (List Item) → Cleaned
  unfolding clean_items
  clean_builds retained (err e) builds = some ([], some e)
  clean_builds retained (ok droplet) builds = listed retained droplet "Succeeded" builds

  abbrev of_build : ℤ → Result ApiError String → Result ApiError (List Item) → Cleaned
  of_build retained (err e) packages = some ([], some e)
  of_build retained (ok package_ref) packages = listed retained package_ref ready_condition packages

  -- By the name of the app's current droplet, the package of a build, and the packages of the app.
  unfoldable pub clean_packages :
      ℤ
      → Result ApiError String
      → (String → Result ApiError String)
      → Result ApiError (List Item)
      → Cleaned
  unfolding clean_items
  clean_packages retained (err e) get_build packages = some ([], some e)
  clean_packages retained (ok droplet) get_build packages =
      of_build retained (if droplet == "" then ok "" else get_build droplet) packages
