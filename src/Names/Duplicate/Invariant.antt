-- ===== src/Names/Duplicate/Invariant.antt =====
-- Requests against one scope of names, in any order: what holds of the objects and the registry.
use mathlib.Core.List.{Memᴰ}
use korifi.Base.{
  String, ◌≡◌, ◌≢◌, false, eq_iff, arith, List, [], ◌∷◌, All, Bool-cases, inl, inr, sym, ◌∙◌, ap,
}
use korifi.Validation.{UniqueObject}
use korifi.Names.Interface.{owner_of, NameRegistry}
use korifi.Names.Duplicate.Owners.{
  identity, Owns, create-Owns, create_keeps, delete_keeps, delete_refused_keeps,
}
use korifi.Names.Duplicate.Rename.{update-Owns, update_keeps, update_refused_keeps}
use korifi.Names.Duplicate.Steps.{
  same_object, without, World, created, not_created, updated, not_updated, deleted, left, finalized,
  deleted_again, update_lost, delete_lost, not_deleted, Step, here, next, Reach, IsOrderly,
  AllOrderly,
}

module _ (registry : NameRegistry) (scope : String) where
  open registry use {State, key, claim}

  -- Every live object owns the claim on its name.
  abbrev pub Inv : World registry scope → Type 0
  Inv w = All (Owns registry scope w.names) w.objects

  Owns-mem :
      (s : State) (p : UniqueObject) (ps : List UniqueObject)
      → Memᴰ p ps
      → All (Owns registry scope s) ps
      → Owns registry scope s p
  Owns-mem s p [] m owns = elim m [ ]
  Owns-mem s p (q ∷ ps) (Memᴰ.head e) (own, _) = rw e own
  Owns-mem s p (q ∷ ps) (Memᴰ.tail m) (_, owns) = Owns-mem s p ps m owns

  All-keeps :
      (s t : State) (ps : List UniqueObject)
      → ((p : UniqueObject) → Owns registry scope s p → Owns registry scope t p)
      → All (Owns registry scope s) ps
      → All (Owns registry scope t) ps
  All-keeps s t [] keep owns = tt
  All-keeps s t (p ∷ ps) keep (own, owns) = (keep p own, All-keeps s t ps keep owns)

  same_object-identity : (a b : UniqueObject) → same_object a b ≡ false → identity a ≢ identity b
  same_object-identity a b h = ground (arith, eq_iff a.namespace b.namespace, eq_iff a.name b.name)

  All-without :
      (s t : State) (obj : UniqueObject) (ps : List UniqueObject)
      → ((p : UniqueObject)
          → identity obj ≢ identity p
          → Owns registry scope s p
          → Owns registry scope t p)
      → All (Owns registry scope s) ps
      → All (Owns registry scope t) (without obj ps)
  All-without s t obj [] keep owns = tt
  All-without s t obj (p ∷ ps) keep (own, owns) =
      let rest = All-without s t obj ps keep owns in
      elim (Bool-cases (same_object obj p)) [
        | inl same ↦ rw same rest
        | inr apart ↦ rw apart (keep p (same_object-identity obj p apart) own, rest)
      ]

  -- Every orderly step keeps the invariant.
  Step-Inv :
      {u v : World registry scope} (st : Step registry scope u v)
      → IsOrderly registry scope st
      → Inv u
      → Inv v
  unfolding IsOrderly
  Step-Inv {u} (created ctx obj live admitted) orderly inv = (
    create-Owns registry scope ctx live obj u.names admitted,
    All-keeps u.names _ u.objects (λ p. create_keeps registry scope ctx live obj p u.names) inv,
  )
  Step-Inv {u} (not_created ctx obj live) orderly inv =
      All-keeps u.names _ u.objects (λ p. create_keeps registry scope ctx live obj p u.names) inv
  Step-Inv {u} (updated ctx old obj live mem same admitted) orderly inv =
      let mine = Owns-mem u.names old u.objects mem inv in
      (
        update-Owns registry scope ctx live old obj u.names same mine admitted,
        All-without u.names _ old u.objects
            (λ p. update_keeps registry scope ctx live old obj p u.names mine) inv,
      )
  Step-Inv {u} (not_updated ctx old obj e live refused) orderly inv =
      All-keeps u.names _ u.objects
        (λ p. update_refused_keeps registry scope ctx live old obj p u.names e refused) inv
  Step-Inv {u} (deleted ctx obj live mem admitted) orderly inv =
      let mine = Owns-mem u.names obj u.objects mem inv in
      All-without u.names _ obj u.objects
        (λ p. delete_keeps registry scope ctx live obj p u.names mine) inv
  Step-Inv {u} (not_deleted ctx obj e live refused) orderly inv =
      All-keeps u.names _ u.objects
        (λ p. delete_refused_keeps registry scope ctx live obj p u.names e refused) inv
  Step-Inv {u} (left ctx obj live mem admitted) orderly inv =
      let mine = Owns-mem u.names obj u.objects mem inv in
      All-without u.names _ obj u.objects
        (λ p. delete_keeps registry scope ctx live obj p u.names mine) inv
  Step-Inv (finalized leaving) orderly inv = inv
  Step-Inv (deleted_again ctx obj live mem) orderly inv = elim orderly [ ]
  Step-Inv (update_lost ctx old obj live mem) orderly inv = elim orderly [ ]
  Step-Inv (delete_lost ctx obj live mem) orderly inv = elim orderly [ ]

  -- From a world in which every live object owns the claim on its name, requests in any order and
  -- with any failures of the registry lead only to such worlds, provided that no object that is
  -- being deleted is deleted again, and that no update or deletion that the webhook admits is
  -- refused after it. Objects that a finalizer keeps while they are deleted are not live.
  pub Reach-Inv :
      {w v : World registry scope}
      → Inv w
      → (r : Reach registry scope w v) → AllOrderly registry scope r
      → Inv v
  unfolding AllOrderly
  Reach-Inv inv here orderly = inv
  Reach-Inv inv (next r st) (before, orderly) = Step-Inv st orderly (Reach-Inv inv r before)

  -- In every world reached from one that satisfies the invariant, two live objects with the same
  -- unique name are the same object, they agree in namespace and name, provided that no object that
  -- is being deleted was deleted again, and that no update or deletion that the webhook admitted
  -- was refused after it.
  pub Reach-unique :
      {w v : World registry scope} (a b : UniqueObject)
      → Inv w
      → (r : Reach registry scope w v) → AllOrderly registry scope r
      → Memᴰ a v.objects
      → Memᴰ b v.objects
      → a.unique_name ≡ b.unique_name
      → identity a ≡ identity b
  Reach-unique {w} {v} a b inv r orderly in_a in_b same =
      let all = Reach-Inv inv r orderly in
      let owns_a = Owns-mem v.names a v.objects in_a all in
      let owns_b = Owns-mem v.names b v.objects in_b all in
      let e = sym owns_a ∙ ap (λ n. owner_of (claim v.names scope (key n))) same ∙ owns_b in cc e
