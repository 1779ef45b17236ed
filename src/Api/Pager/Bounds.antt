-- ===== src/Api/Pager/Bounds.antt =====
-- How long a page is, and when there is none
-- (api/repositories/k8sklient/descriptors/pager.go).
use korifi.Base.{
  ℕ, zero, suc, ◌+◌, ◌-◌, ◌*◌, ◌≤◌, ◌<◌, ◌≡◌, refl, ◌∙◌, List, [], Option, some, String, ◌⊎◌, inl,
  inr, length, drop, length-take, arith, leb, ltb, if_true, if_false, Bool-cases, Option,
}
use korifi.Base.Int.{ℤ, pos, negsuc}
use korifi.Kube.Errors.{Result, ok, err}
use korifi.Api.Pager.{Page, min, info_of, total_pages_of, page_of, get_page, single_page}
use korifi.Api.Pager.Cover.{shown, page_there}

-- An integer below 1, or one that is at least 1.
pub data IsBelowOne : ℤ → Type 0 where
  none_at_all : IsBelowOne (pos 0)
  negative : (n : ℕ) → IsBelowOne (negsuc n)

module _ {ℓ} {A : Type ℓ} where
  -- The page of a size and a number, both at least 1: it has at most as many items as the size,
  -- knows how many there are in all, and is empty beyond the last page of a list that is longer
  -- than the size.
  unfoldable pub Fits : List A → ℕ → ℕ → Option (Result String (Page A)) → Type ℓ
  Fits items size number answer =
      (p : Page A) × (answer ≡ some (ok p))
      × (length p.items ≤ size)
      × (p.info.total_results ≡ length items)
      × (size < length items → total_pages_of (length items) size < number → length p.items ≡ 0)

  page_of-Fits :
      (items : List A) (m k : ℕ) → Fits items (suc m) (suc k) (page_of items (suc m) (suc k))
  unfolding Fits
  page_of-Fits items m k = elim (Bool-cases (leb (length items) (suc m))) [
    | inl fits ↦ (
      single_page items (suc m),
      if_true (leb (length items) (suc m)) _ _ fits,
      ground (arith, fits),
      refl,
      λ h h'. absurd (ground (arith, fits, h)),
    )
    | inr more ↦
        let longer : suc m < length items = ground (arith, more) in
        elim (Bool-cases (ltb (total_pages_of (length items) (suc m)) (suc k))) [
          | inl beyond ↦ (
            record { info = info_of items (suc m) (suc k); items = [] },
            if_false (leb (length items) (suc m)) _ _ more
                ∙ if_true (ltb (total_pages_of (length items) (suc m)) (suc k)) _ _ beyond,
            omega arith,
            refl,
            λ h h'. refl,
          )
          | inr there ↦
              let start = suc m * (suc k - 1) in
              let counted =
                length-take (min (length items) (start + suc m) - start) (drop start items) in
              let there' : suc k ≤ total_pages_of (length items) (suc m) = ground (arith, there) in
              (
                record {
                  info = info_of items (suc m) (suc k);
                  items = shown items (suc m) (suc k);
                },
                page_there items (suc m) k (omega arith) longer there',
                ground (arith, counted),
                refl,
                λ h h'. absurd (omega (arith, h', there')),
              )
        ]
  ]

  -- A request for a page always gets an answer, and never takes a slice out of range: it is an
  -- error when the size or the number is below 1, and only then; else it is a page of at most as
  -- many items as the size, which knows how many there are in all, and which is empty when the
  -- list is longer than the size and the number is beyond the last page.
  pub get_page-Fits :
      (items : List A) (size number : ℤ)
      → ((text : String) × (get_page items size number ≡ some (err text))
          × (IsBelowOne size ⊎ IsBelowOne number))
        ⊎ ((m : ℕ) × (k : ℕ) × (size ≡ pos (suc m))
            × (number ≡ pos (suc k))
            × Fits items (suc m) (suc k) (get_page items size number))
  unfolding get_page
  get_page-Fits items (negsuc n) number = inl (_, refl, inl (negative n))
  get_page-Fits items (pos zero) number = inl (_, refl, inl none_at_all)
  get_page-Fits items (pos (suc m)) (negsuc n) = inl (_, refl, inr (negative n))
  get_page-Fits items (pos (suc m)) (pos zero) = inl (_, refl, inr none_at_all)
  get_page-Fits items (pos (suc m)) (pos (suc k)) = inr (m, k, refl, refl, page_of-Fits items m k)
