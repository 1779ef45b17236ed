-- ===== src/Base/Text.antt =====
-- Texts, and dictionaries as association lists with text keys.
use Prim.Native.String
use Prim.Native.String.{String}
use Prim.Native.Nat.{ℕ}
use Prim.Native.Char.{Char, code}
use text.Mathlib.Text.{◌==◌}
use text.Mathlib.TextEquality.{eq_iff}
use mathlib.Core.Path.{◌≡◌, refl}
use mathlib.Core.Option.{Option, none, some}
use mathlib.Core.List.{List, [], ◌∷◌}
use native.Mathlib.Omega.{arith}
use korifi.Base.Tests.{eqb, if◌then◌else◌}

-- The parts of a format string, one after the other.
abbrev pub concat : List String → String
concat [] = ""
concat (s ∷ ss) = String.◌++◌ s (concat ss)

abbrev pub push_front : Char → List String → List String
push_front c [] = String.◌∷◌ c "" ∷ []
push_front c (w ∷ ws) = String.◌∷◌ c w ∷ ws

-- `strings.Split` by a separator of one character, given by its code point.
unfoldable pub split_on : ℕ → String → List String
split_on sep String.[] = "" ∷ []
split_on sep (String.◌∷◌ c s) =
    let rest = split_on sep s in if eqb (code c) sep then "" ∷ rest else push_front c rest

-- Go maps whose keys are texts. The order of the entries has no meaning.
module _ {κ} {A : Type κ} where
  -- `value, found := entries[key]`
  unfoldable pub lookup : (key : String) (entries : List (String × A)) → Option A
  lookup key [] = none
  lookup key (entry ∷ entries) =
      let later = lookup key entries in if entry.0 == key then some entry.1 else later

  -- `entries[key] = value`: the entry of the key is overwritten, or a new one comes last.
  unfoldable pub insert :
      (key : String) (value : A) (entries : List (String × A)) → List (String × A)
  insert key value [] = (key, value) ∷ []
  insert key value (entry ∷ entries) =
      let later = insert key value entries in
      if entry.0 == key then (key, value) ∷ entries else entry ∷ later

  pub lookup-insert :
      (entries : List (String × A)) (key asked : String) (value : A)
      → lookup asked (insert key value entries)
        ≡ (if key == asked then some value else lookup asked entries)
  unfolding insert lookup
  lookup-insert [] key asked value = refl
  lookup-insert (entry ∷ entries) key asked value =
      let rest = lookup-insert entries key asked value in
      ground (rest, arith, eq_iff entry.0 asked, eq_iff key asked, eq_iff entry.0 key)

-- `m[k]` of a map of texts: the empty text where the key is missing.
unfoldable pub value_at : String → List (String × String) → String
unfolding lookup
value_at k m = elim (lookup k m) [ none ↦ "" | some v ↦ v ]
