-- ===== src/Names/Memory.antt =====
-- A lease API that answers from memory and never fails on its own: the promises of `LeaseApi` can
-- be kept. It serves the tests only.
use korifi.Base.{
  String, ◌≡◌, refl, List, [], ◌∷◌, ◌&&◌, Option, none, some, ◌==◌, eq_iff, arith, if◌then◌else◌,
  Option-cases, inl, inr, eq_refl,
}
use korifi.Kube.Errors.{ApiError, Reason, Result, ok, err}
use korifi.Names.Lease.{Lease, PatchOp, test, replace, holder_path, swap_holder, LeaseApi}

abbrev pub Store : Type 0
Store = String → String → Option Lease

abbrev pub put : String → String → Option Lease → Store → Store
put ns n v c = λ ns' n'. if ns == ns' && n == n' then v else c ns' n'

abbrev pub fail : Reason → ApiError
fail r = record { reason = r; message = "" }

abbrev pub create_at : Option Lease → Lease → Store → Store × Option ApiError
create_at none l c = (put l.namespace l.name (some l) c, none)
create_at (some _) l c = (c, some (fail Reason.already_exists))

abbrev pub delete_at : Option Lease → String → String → Store → Store × Option ApiError
delete_at none ns n c = (c, some (fail Reason.not_found))
delete_at (some _) ns n c = (put ns n none c, none)

abbrev pub patched : List PatchOp → Lease → Option Lease
patched [] l = some l
patched (test path v ∷ ops) l =
    if path == holder_path && l.holder_identity == v then patched ops l else none
patched (replace path v ∷ ops) l =
    if path == holder_path then patched ops (record l { holder_identity = v }) else none

abbrev pub patch_to : Option Lease → String → String → Store → Store × Option ApiError
patch_to none ns n c = (c, some (fail (Reason.other_reason "Invalid")))
patch_to (some l) ns n c = (put ns n (some l) c, none)

abbrev pub patch_at :
    Option Lease → String → String → List PatchOp → Store → Store × Option ApiError
patch_at none ns n ops c = (c, some (fail Reason.not_found))
patch_at (some l) ns n ops c = patch_to (patched ops l) ns n c

abbrev pub get_at : Option Lease → Result ApiError Lease
get_at none = err (fail Reason.not_found)
get_at (some l) = ok l

pub create_ok :
    (l : Lease) (c : Store) (o : Option Lease)
    → c l.namespace l.name ≡ o
    → (create_at o l c).1 ≡ none
    → (c l.namespace l.name ≡ none)
      × ((ns n : String)
          → (create_at o l c).0 ns n
            ≡ (if l.namespace == ns && l.name == n then some l else c ns n))
create_ok l c none e h = (e, λ ns n. refl)
create_ok l c (some _) e h = cc

pub create_err :
    (l : Lease) (c : Store) (o : Option Lease) (e : ApiError)
    → (create_at o l c).1 ≡ some e
    → (ns n : String) → (create_at o l c).0 ns n ≡ c ns n
create_err l c none e h ns n = cc
create_err l c (some _) e h ns n = refl

pub delete_ok :
    (ns n : String) (c : Store) (o : Option Lease)
    → (delete_at o ns n c).1 ≡ none
    → (ns' n' : String)
    → (delete_at o ns n c).0 ns' n' ≡ (if ns == ns' && n == n' then none else c ns' n')
delete_ok ns n c none h ns' n' = cc
delete_ok ns n c (some _) h ns' n' = refl

pub delete_err :
    (ns n : String) (c : Store) (o : Option Lease) (e : ApiError)
    → (delete_at o ns n c).1 ≡ some e
    → (ns' n' : String) → (delete_at o ns n c).0 ns' n' ≡ c ns' n'
delete_err ns n c none e h ns' n' = refl
delete_err ns n c (some _) e h ns' n' = cc

pub delete_not_found :
    (ns n : String) (c : Store) (o : Option Lease) (e : ApiError)
    → (delete_at o ns n c).1 ≡ some e
    → o ≡ none
delete_not_found ns n c none e h = refl
delete_not_found ns n c (some _) e h = cc

swapped :
    (from to : String) (l l' : Lease)
    → patched (swap_holder from to) l ≡ some l'
    → (l.holder_identity ≡ from) × (l' ≡ record l { holder_identity = to })
swapped from to l l' h =
    let held = eq_iff l.holder_identity from in
    (ground (arith, held, eq_refl holder_path), ground (arith, held, eq_refl holder_path))

pub patch_ok :
    (ns n from to : String) (c : Store) (o : Option Lease)
    → c ns n ≡ o
    → (patch_at o ns n (swap_holder from to) c).1 ≡ none
    → (l : Lease) × (c ns n ≡ some l)
      × (l.holder_identity ≡ from)
      × ((ns' n' : String)
          → (patch_at o ns n (swap_holder from to) c).0 ns' n'
            ≡ (if ns == ns' && n == n' then some (record l { holder_identity = to }) else c ns' n'))
patch_ok ns n from to c none e h = cc
patch_ok ns n from to c (some l) e h = elim (Option-cases (patched (swap_holder from to) l)) [
  | inl bad ↦ ground arith
  | inr (l', good) ↦
      let (held, same) = swapped from to l l' good in (l, e, held, λ ns' n'. ground arith)
]

pub patch_err :
    (ns n : String) (ops : List PatchOp) (c : Store) (o : Option Lease) (e : ApiError)
    → (patch_at o ns n ops c).1 ≡ some e
    → (ns' n' : String) → (patch_at o ns n ops c).0 ns' n' ≡ c ns' n'
patch_err ns n ops c none e h ns' n' = refl
patch_err ns n ops c (some l) e h ns' n' = ground arith

pub get_ok : (o : Option Lease) (l : Lease) → get_at o ≡ ok l → o ≡ some l
get_ok none l h = cc
get_ok (some l') l h = ground arith

abbrev pub memory : LeaseApi
memory = record {
  Cluster = Store;
  lease_at = λ c. c;
  create = λ l c. create_at (c l.namespace l.name) l c;
  delete = λ ns n c. delete_at (c ns n) ns n c;
  patch = λ ns n ops c. patch_at (c ns n) ns n ops c;
  get = λ ns n c. get_at (c ns n);
  create_ok = λ l c. create_ok l c (c l.namespace l.name) refl;
  create_err = λ l c. create_err l c (c l.namespace l.name);
  delete_ok = λ ns n c. delete_ok ns n c (c ns n);
  delete_err = λ ns n c. delete_err ns n c (c ns n);
  delete_not_found = λ ns n c e h _. delete_not_found ns n c (c ns n) e h;
  patch_ok = λ ns n from to c. patch_ok ns n from to c (c ns n) refl;
  patch_err = λ ns n ops c. patch_err ns n ops c (c ns n);
  get_ok = λ ns n c l. get_ok (c ns n) l;
}
