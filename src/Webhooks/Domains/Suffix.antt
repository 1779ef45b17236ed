-- ===== src/Webhooks/Domains/Suffix.antt =====
-- `isSubDomain` decides whether one list of labels ends in the other.
use korifi.Base.{
  ℕ, zero, suc, ◌+◌, ◌-◌, ◌≤◌, ◌<◌, String, ◌≡◌, refl, ap, sym, List, [], ◌∷◌, ◌++◌, Bool, true,
  false, not, some, ◌==◌, eq_iff, ltb, length, length-append, get_elem?, if◌then◌else◌, arith, ◌⊎◌,
  inl, inr, ◌↔◌, Bool-cases, Option-cases,
}
use native.Mathlib.Decide.{ℕ_discrete}
use native.Mathlib.Nat.{add-suc, add-zero}
use korifi.Webhooks.Domains.{same_tail, is_sub_domain}

-- `longer` ends in `shorter`.
unfoldable pub EndsIn : List String → List String → Type 0
EndsIn longer shorter = (front : List String) × (front ++ shorter ≡ longer)

get_elem?-lt : (xs : List String) (i : ℕ) → i < length xs → (x : String) × (get_elem? xs i ≡ some x)
get_elem?-lt [] i h = elim h [ ]
get_elem?-lt (x ∷ xs) zero h = (x, refl)
get_elem?-lt (x ∷ xs) (suc i) h = get_elem?-lt xs i (omega arith)

get_elem?-append :
    (front xs : List String) (i : ℕ) → get_elem? (front ++ xs) (i + length front) ≡ get_elem? xs i
get_elem?-append [] xs i = ap (get_elem? xs) (omega arith)
get_elem?-append (y ∷ front) xs i = rw add-suc (get_elem?-append front xs i)

-- In range, the loop ends with an answer.
same_tail-total :
    (s l : List String) (offset n : ℕ)
    → n ≤ length s
    → n + offset ≤ length l
    → (b : Bool) × (same_tail s l offset n ≡ some b)
unfolding same_tail
same_tail-total s l offset zero hs hl = (true, refl)
same_tail-total s l offset (suc i) hs hl =
    let (a, ea) = get_elem?-lt s i (omega arith) in
    let (b, eb) = get_elem?-lt l (i + offset) (omega arith) in
    let (r, er) = same_tail-total s l offset i (omega arith) (omega arith) in
    (if not (a == b) then false else r, ground arith)

same_tail_step :
    (s l : List String) (offset n : ℕ)
    → n < length s
    → same_tail s l offset (suc n) ≡ some true
    → (get_elem? s n ≡ get_elem? l (n + offset)) × (same_tail s l offset n ≡ some true)
unfolding same_tail
same_tail_step s l offset n hs h =
    let (a, ea) = get_elem?-lt s n hs in
    elim (Option-cases (get_elem? l (n + offset))) [
      | inl out ↦ ground arith
      | inr (b, eb) ↦ (ground (arith, eq_iff a b), ground arith)
    ]

-- An answer `true` says that the compared elements agree.
same_tail_sound :
    (s l : List String) (offset n i : ℕ)
    → n ≤ length s
    → same_tail s l offset n ≡ some true
    → i < n
    → get_elem? s i ≡ get_elem? l (i + offset)
same_tail_sound s l offset zero i hs h lt = elim lt [ ]
same_tail_sound s l offset (suc n) i hs h lt =
    let (here, below) = same_tail_step s l offset n hs h in
    elim (ℕ_discrete i n) [
      | yes e ↦ rw e here
      | no ne ↦ same_tail_sound s l offset n i (omega arith) below (omega arith)
    ]

list_ext :
    (s l : List String)
    → length l ≡ length s
    → ((i : ℕ) → i < length s → get_elem? s i ≡ get_elem? l i)
    → s ≡ l
list_ext [] [] size same = refl
list_ext [] (y ∷ l) size same = absurd (omega arith)
list_ext (x ∷ s) [] size same = absurd (omega arith)
list_ext (x ∷ s) (y ∷ l) size same =
    cc (same 0 (omega arith), list_ext s l (omega arith) (λ i h. same (suc i) (omega arith)))

EndsIn-of_elems :
    (s l : List String) (offset : ℕ)
    → length l ≡ length s + offset
    → ((i : ℕ) → i < length s → get_elem? s i ≡ get_elem? l (i + offset))
    → EndsIn l s
unfolding EndsIn
EndsIn-of_elems s l zero size same =
    ([], list_ext s l (omega arith) (λ i h. rw add-zero at (same i h)))
EndsIn-of_elems s [] (suc k) size same = absurd (omega arith)
EndsIn-of_elems s (y ∷ l) (suc k) size same =
    let (front, e) = EndsIn-of_elems s l k (omega arith) (λ i h. rw add-suc at (same i h)) in
    (y ∷ front, ap (◌∷◌ y) e)

same_tail_complete :
    (front s : List String) (n : ℕ)
    → n ≤ length s
    → same_tail s (front ++ s) (length front) n ≡ some true
unfolding same_tail
same_tail_complete front s zero h = refl
same_tail_complete front s (suc n) h =
    let (a, ea) = get_elem?-lt s n h in
    let eb = get_elem?-append front s n in
    ground (arith, same_tail_complete front s n (omega arith), eq_iff a a)

-- The test with its two arguments in order of length.
same_tail_iff :
    (s l : List String)
    → length s ≤ length l
    → (same_tail s l (length l - length s) (length s) ≡ some true) ↔ EndsIn l s
unfolding EndsIn
same_tail_iff s l h = (
  λ e.
      EndsIn-of_elems s l (length l - length s) (omega arith)
        (λ i. same_tail_sound s l (length l - length s) (length s) i (omega arith) e),
  λ (front, e).
      let size : length l - length s ≡ length front =
        omega (arith, ap length e, length-append front s) in
      rw (size, ← e) (same_tail_complete front s (length s) (omega arith)),
)

EndsIn-length : (l s : List String) → EndsIn l s → length s ≤ length l
unfolding EndsIn
EndsIn-length l s (front, e) = omega (arith, ap length e, length-append front s)

EndsIn-eq : (l s : List String) → EndsIn l s → length l ≤ length s → EndsIn s l
unfolding EndsIn
EndsIn-eq l s ([], e) h = ([], sym e)
EndsIn-eq l s (x ∷ front, e) h = absurd (omega (arith, ap length e, length-append front s))

-- For every two lists of labels the test neither panics nor misses: it answers, and it answers
-- true exactly when one of the lists ends in the other.
pub is_sub_domain_iff :
    (a b : List String)
    → ((r : Bool) × (is_sub_domain a b ≡ some r))
      × ((is_sub_domain a b ≡ some true) ↔ (EndsIn b a ⊎ EndsIn a b))
unfolding is_sub_domain
is_sub_domain_iff a b = elim (Bool-cases (ltb (length a) (length b))) [
  | inl shorter ↦
      let le : length a ≤ length b = ground arith in
      let iff = same_tail_iff a b le in
      rw shorter (
        same_tail-total a b (length b - length a) (length a) (omega arith) (omega arith),
        (λ e. inl (iff.0 e), λ ends. iff.1 (elim ends [ inl x ↦ x | inr x ↦ EndsIn-eq a b x le ])),
      )
  | inr longer ↦
      let le : length b ≤ length a = ground arith in
      let iff = same_tail_iff b a le in
      rw longer (
        same_tail-total b a (length a - length b) (length b) (omega arith) (omega arith),
        (λ e. inr (iff.0 e), λ ends. iff.1 (elim ends [ inl x ↦ EndsIn-eq b a x le | inr x ↦ x ])),
      )
]
