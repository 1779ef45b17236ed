-- ===== src/Api/Pager.antt =====
-- api/repositories/k8sklient/descriptors/pager.go: the pages of a list. A page size and a page
-- number are integers; the sums and products that the code computes stay below twice the length of
-- the list, so they do not overflow. A slice out of range, which panics, is `none`.
pub mod Cover
pub mod Bounds
use korifi.Base.{
  ℕ, zero, suc, ◌+◌, ◌-◌, ◌*◌, ◌/◌, ◌%◌, String, List, [], ◌∷◌, Bool, ◌&&◌, Option, none, some,
  length, take, drop, leb, ltb, eqb, if◌then◌else◌,
}
use korifi.Base.Int.{ℤ, pos, negsuc}
use korifi.Kube.Errors.{Result, ok, err}

pub record PageInfo : Type 0 where
  pub total_results : ℕ
  pub total_pages : ℕ
  pub page_number : ℕ
  pub page_size : ℕ

pub record Page {ℓ} (A : Type ℓ) : Type ℓ where
  pub info : PageInfo
  pub items : List A

abbrev pub single_page_info : ℕ → ℕ → PageInfo
single_page_info items_count page_size = record {
  total_results = items_count;
  total_pages = 1;
  page_number = 1;
  page_size = page_size;
}

-- `min`
abbrev pub min : ℕ → ℕ → ℕ
min a b = if ltb a b then a else b

abbrev pub total_pages_of : ℕ → ℕ → ℕ
total_pages_of total_results page_size =
    if eqb (total_results % page_size) 0
    then total_results / page_size
    else total_results / page_size + 1

module _ {ℓ} {A : Type ℓ} where
  abbrev pub single_page : List A → ℕ → Page A
  single_page items page_size = record {
    info = single_page_info (length items) page_size;
    items = items;
  }

  -- `items[start:end]`
  abbrev pub slice : List A → ℕ → ℕ → Option (List A)
  slice items start end =
      if leb start end && leb end (length items)
      then some (take (end - start) (drop start items))
      else none

  abbrev pub paged : PageInfo → Option (List A) → Option (Result String (Page A))
  paged info none = none
  paged info (some items) = some (ok (record { info = info; items = items }))

  abbrev pub info_of : List A → ℕ → ℕ → PageInfo
  info_of items page_size page_number = record {
    total_results = length items;
    total_pages = total_pages_of (length items) page_size;
    page_number = page_number;
    page_size = page_size;
  }

  -- A page size and a page number of at least 1.
  abbrev pub page_of : List A → ℕ → ℕ → Option (Result String (Page A))
  page_of items page_size page_number =
      let info = info_of items page_size page_number in
      if leb (length items) page_size
      then some (ok (single_page items page_size))
      else if ltb info.total_pages page_number
      then some (ok (record { info = info; items = [] }))
      else paged info (
          slice items (page_size * (page_number - 1))
            (min (length items) (page_size * (page_number - 1) + page_size)))

  abbrev checked_number : List A → ℕ → ℤ → Option (Result String (Page A))
  checked_number items page_size (negsuc n) = some (err "pageNumber cannot be less than 1")
  checked_number items page_size (pos zero) = some (err "pageNumber cannot be less than 1")
  checked_number items page_size (pos (suc n)) = page_of items page_size (suc n)

  unfoldable pub get_page : List A → ℤ → ℤ → Option (Result String (Page A))
  get_page items (negsuc n) page_number = some (err "pageSize cannot be less than 1")
  get_page items (pos zero) page_number = some (err "pageSize cannot be less than 1")
  get_page items (pos (suc n)) page_number = checked_number items (suc n) page_number
