-- ===== src/Api/Pager/Cover.antt =====
-- The pages of a list, one after the other, are the list
-- (api/repositories/k8sklient/descriptors/pager.go).
use native.Mathlib.Nat.{div-add-mod, mod-lt, mul-le-mul_left, mul-add, mul-one, mul-suc, mul-zero}
use korifi.Base.{
  ℕ, zero, suc, ◌+◌, ◌-◌, ◌*◌, ◌/◌, ◌%◌, ◌≤◌, ◌<◌, ◌≡◌, refl, sym, ap, ◌∙◌, subst, String, List, [],
  ◌++◌, ◌&&◌, Option, none, some, length, take, drop, take-drop, take-length, arith, leb, ltb, eqb,
  if_either, if_true, if_false, Bool-cases, inl, inr,
}
use korifi.Base.Int.{ℤ, pos}
use korifi.Kube.Errors.{Result, ok, err}
use korifi.Api.Pager.{
  Page, paged, info_of, min, total_pages_of, slice, page_of, get_page, single_page,
}

total_pages_enough : (total size : ℕ) → 0 < size → total ≤ size * total_pages_of total size
total_pages_enough total size h =
    let whole = div-add-mod total size in
    let rest = mod-lt total h in
    if_either (λ t. total ≤ size * t) (eqb (total % size) 0) _ _
      (λ even. ground (arith, whole, even))
      (λ odd. omega (arith, whole, rest, mul-add size (total / size) 1, mul-one size))

-- Where a page starts that there is.
page_starts : (total size k : ℕ) → suc k ≤ total_pages_of total size → 0 < size → size * k ≤ total
page_starts total size k h positive =
    let whole = div-add-mod total size in
    let below : k ≤ total / size = ground (arith, h) in
    omega (arith, whole, mul-le-mul_left size below)

page_first : (total size : ℕ) → 0 < total → 0 < size → 1 ≤ total_pages_of total size
page_first total size some_there positive =
    let enough = total_pages_enough total size positive in
    elim (Bool-cases (leb 1 (total_pages_of total size))) [
      | inl is ↦ ground (arith, is)
      | inr isnt ↦
          let nothing : total_pages_of total size ≡ 0 = ground (arith, isnt) in
          let empty = subst (λ t. total ≤ size * t) nothing enough in
          absurd (omega (arith, empty, mul-zero size, some_there))
    ]

module _ {ℓ} {A : Type ℓ} where
  slice_lem :
      (items : List A) (start end : ℕ)
      → start ≤ end
      → end ≤ length items
      → slice items start end ≡ some (take (end - start) (drop start items))
  slice_lem items start end h h' =
      if_true (leb start end && leb end (length items)) _ _ (ground (arith, h, h'))

  take-min : (items : List A) (n : ℕ) → take (min (length items) n) items ≡ take n items
  take-min items n =
      if_either (λ m. take m items ≡ take n items) (ltb (length items) n) _ _
        (λ h.
          take-length (length items) items (omega arith)
          ∙ sym (take-length n items (ground (arith, h))))
        (λ h. refl)

  abbrev after_page : List A → Option (Result String (Page A)) → Option (List A)
  after_page before none = none
  after_page before (some (err e)) = none
  after_page before (some (ok p)) = some (before ++ p.items)

  abbrev joined : Option (List A) → Option (Result String (Page A)) → Option (List A)
  joined none page = none
  joined (some before) page = after_page before page

  -- The items of the first `k` pages, one page after the other.
  unfoldable pub gathered : List A → ℤ → ℕ → Option (List A)
  gathered items size zero = some []
  gathered items size (suc k) = joined (gathered items size k) (get_page items size (pos (suc k)))

  -- The items that a page shows.
  abbrev pub shown : List A → ℕ → ℕ → List A
  shown items size number =
      let start = size * (number - 1) in
      take (min (length items) (start + size) - start) (drop start items)

  pub page_there :
      (items : List A) (size k : ℕ)
      → 0 < size
      → size < length items
      → suc k ≤ total_pages_of (length items) size
      → page_of items size (suc k)
        ≡ some (ok (record { info = info_of items size (suc k); items = shown items size (suc k) }))
  page_there items size k positive longer there =
      let start = size * (suc k - 1) in
      let same : start ≡ size * k = ap (λ j. size * j) (omega arith) in
      let begins = page_starts (length items) size k there positive in
      let begins' : start ≤ length items = omega (arith, same, begins) in
      if_false (leb (length items) size) _ _ (ground (arith, longer))
      ∙ if_false (ltb (total_pages_of (length items) size) (suc k)) _ _ (ground (arith, there))
      ∙ ap (paged (info_of items size (suc k))) (
          slice_lem items start (min (length items) (start + size)) (ground (arith, begins'))
            (ground arith))

  -- The items of a page come after those of the pages before it.
  shown_next :
      (items : List A) (size k : ℕ)
      → size * k ≤ length items
      → take (size * k) items ++ shown items size (suc k) ≡ take (size * suc k) items
  shown_next items size k begins =
      let start = size * (suc k - 1) in
      let end = min (length items) (start + size) in
      let same : start ≡ size * k = ap (λ j. size * j) (omega arith) in
      let begins' : start ≤ length items = omega (arith, same, begins) in
      let inside : start ≤ end = ground (arith, begins') in
      let counted : start + (end - start) ≡ end = omega (arith, inside) in
      ap (λ n. take n items ++ take (end - start) (drop start items)) (sym same)
      ∙ take-drop start (end - start) items
      ∙ ap (λ n. take n items) counted
      ∙ take-min items (start + size)
      ∙ ap (λ n. take n items) (ap (λ n. n + size) same ∙ sym (mul-suc size k))

  page_joined :
      (items : List A) (size k : ℕ)
      → 0 < size
      → size < length items
      → suc k ≤ total_pages_of (length items) size
      → after_page (take (size * k) items) (page_of items size (suc k))
        ≡ some (take (size * suc k) items)
  page_joined items size k positive longer there =
      ap (after_page (take (size * k) items)) (page_there items size k positive longer there)
      ∙ ap some (shown_next items size k (page_starts (length items) size k there positive))

  gathered-take :
      (items : List A) (n k : ℕ)
      → suc n < length items
      → k ≤ total_pages_of (length items) (suc n)
      → gathered items (pos (suc n)) k ≡ some (take (suc n * k) items)
  unfolding gathered get_page
  gathered-take items n zero longer there = ap (λ m. some (take m items)) (sym (mul-zero (suc n)))
  gathered-take items n (suc k) longer there =
      ap (λ before. joined before (page_of items (suc n) (suc k)))
        (gathered-take items n k longer (omega (arith, there)))
      ∙ page_joined items (suc n) k (omega arith) longer there

  -- For every page size of at least 1: the first page of a list can be had, and the pages from the
  -- first up to the number of pages that it tells, one after the other, are the list.
  pub pages_cover :
      (items : List A) (size : ℕ)
      → 1 ≤ size
      → (p : Page A) × (get_page items (pos size) (pos 1) ≡ some (ok p))
        × (gathered items (pos size) p.info.total_pages ≡ some items)
  unfolding get_page gathered
  pages_cover items zero positive = absurd (omega (arith, positive))
  pages_cover items (suc n) positive = elim (Bool-cases (leb (length items) (suc n))) [
    | inl fits ↦
        let is = if_true (leb (length items) (suc n)) _ _ fits in
        (single_page items (suc n), is, ap (after_page []) is)
    | inr more ↦
        let longer : suc n < length items = ground (arith, more) in
        let enough = total_pages_enough (length items) (suc n) (omega arith) in
        let first : 1 ≤ total_pages_of (length items) (suc n) =
          page_first (length items) (suc n) (omega (arith, longer)) (omega arith) in
        (
          _,
          page_there items (suc n) 0 (omega arith) longer first,
          gathered-take items n (total_pages_of (length items) (suc n)) longer (omega arith)
              ∙ ap some (take-length _ items enough),
        )
  ]
