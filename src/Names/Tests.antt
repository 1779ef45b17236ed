-- ===== src/Names/Tests.antt =====
-- The registry and the validator at concrete requests, over leases in memory.
use mathlib.Core.List.{Memᴰ}
use korifi.Base.{String, ◌≡◌, refl, [], ◌∷◌, none, some, ◌⊎◌}
use korifi.Validation.{UniqueObject, duplicate_error, unknown_error}
use korifi.Names.Interface.{Context, is_dry_run, NameRegistry}
use korifi.Names.Registry.{hash_name, register_name, try_lock_name, unlock_name, deregister_name}
use korifi.Names.Registry.Claims.{leased_names}
use korifi.Names.Memory.{memory}
use korifi.Names.Duplicate.{validate_create, validate_update, validate_delete}
use korifi.Names.Duplicate.Owners.{identity}
use korifi.Names.Duplicate.Steps.{
  World, created, updated, left, deleted_again, AllOrderly, IsOrderly, Reach, here, next,
}
use korifi.Names.Duplicate.Invariant.{Inv, Reach-Inv, Reach-unique}
use korifi.Names.Duplicate.Laws.{create_taken}

abbrev apps : NameRegistry
apps = leased_names (λ s. s) "app" memory

abbrev real : Context
real = some none

abbrev app : String → String → UniqueObject
app guid name = record {
  namespace = "space-1";
  name = guid;
  unique_name = name;
  unique_validation_error_message = "App with that name already exists.";
}

abbrev empty_world : World apps "space-1"
empty_world = record { names = λ ns n. none; objects = []; leaving = [] }

abbrev one : World apps "space-1"
unfolding validate_create register_name
one = record {
  names = (validate_create apps real "space-1" (app "guid-1" "web") empty_world.names).0;
  objects = app "guid-1" "web" ∷ [];
  leaving = [];
}

calls : Unit {0}
unfolding validate_create validate_update validate_delete register_name try_lock_name unlock_name
    deregister_name hash_name is_dry_run
calls = tt

one_reached : Reach apps "space-1" empty_world one
unfolding calls
one_reached = next here (created real (app "guid-1" "web") refl refl)

second_refused :
    (validate_create apps real "space-1" (app "guid-2" "web") one.names).1
    ≡ some (duplicate_error (app "guid-2" "web"))
unfolding calls
second_refused = refl

abbrev renamed : World apps "space-1"
unfolding validate_update
renamed = record {
  names =
      (validate_update apps real "space-1" (app "guid-1" "web") (app "guid-1" "api") one.names).0;
  objects = app "guid-1" "api" ∷ [];
  leaving = [];
}

renamed_reached : Reach apps "space-1" empty_world renamed
unfolding calls
renamed_reached =
    next one_reached
      (updated real (app "guid-1" "web") (app "guid-1" "api") refl (Memᴰ.head refl) refl refl)

renamed_orderly : AllOrderly apps "space-1" renamed_reached
unfolding one_reached renamed_reached AllOrderly IsOrderly
renamed_orderly = ((tt, tt), tt)

-- The old name is free again, and the new one is not.
renamed_names :
    ((validate_create apps real "space-1" (app "guid-2" "web") renamed.names).1 ≡ none)
    × ((validate_create apps real "space-1" (app "guid-2" "api") renamed.names).1
        ≡ some (duplicate_error (app "guid-2" "api")))
unfolding calls
renamed_names = (refl, refl)

create_taken_example :
    (((validate_create apps real "space-1" (app "guid-2" "web") one.names).1
        ≡ some (duplicate_error (app "guid-2" "web")))
      ⊎ ((validate_create apps real "space-1" (app "guid-2" "web") one.names).1
          ≡ some unknown_error))
    × ((ns k : String)
        → apps.claim (validate_create apps real "space-1" (app "guid-2" "web") one.names).0 ns k
          ≡ apps.claim one.names ns k)
unfolding calls
create_taken_example = create_taken apps real "space-1" (app "guid-2" "web") one.names _ refl refl

-- An app that its finalizer keeps is deleted, its name is taken by another app, and it is deleted
-- again: then the name of the other app is free, and a third app takes it.
abbrev taken_over : World apps "space-1"
unfolding validate_delete validate_create
taken_over =
    let freed = (validate_delete apps real "space-1" (app "guid-1" "web") one.names).0 in
    record {
      names = (validate_create apps real "space-1" (app "guid-2" "web") freed).0;
      objects = app "guid-2" "web" ∷ [];
      leaving = app "guid-1" "web" ∷ [];
    }

taken_over_reached : Reach apps "space-1" empty_world taken_over
unfolding calls
taken_over_reached =
    next (next one_reached (left real (app "guid-1" "web") refl (Memᴰ.head refl) refl))
      (created real (app "guid-2" "web") refl refl)

taken_over_orderly : AllOrderly apps "space-1" taken_over_reached
unfolding one_reached taken_over_reached AllOrderly IsOrderly
taken_over_orderly = (((tt, tt), tt), tt)

Reach-Inv_example : Inv apps "space-1" taken_over
Reach-Inv_example = Reach-Inv apps "space-1" tt taken_over_reached taken_over_orderly

Reach-unique_example : identity (app "guid-1" "api") ≡ identity (app "guid-1" "api")
unfolding renamed
Reach-unique_example =
    Reach-unique apps "space-1" (app "guid-1" "api") (app "guid-1" "api") tt renamed_reached
      renamed_orderly (Memᴰ.head refl) (Memᴰ.head refl) refl

abbrev two_of_one_name : World apps "space-1"
unfolding validate_delete validate_create
two_of_one_name =
    let freed = (validate_delete apps real "space-1" (app "guid-1" "web") taken_over.names).0 in
    record {
      names = (validate_create apps real "space-1" (app "guid-3" "web") freed).0;
      objects = app "guid-3" "web" ∷ app "guid-2" "web" ∷ [];
      leaving = app "guid-1" "web" ∷ [];
    }

two_of_one_name_reached : Reach apps "space-1" empty_world two_of_one_name
unfolding calls taken_over_reached
two_of_one_name_reached =
    next (next taken_over_reached (deleted_again real (app "guid-1" "web") refl (Memᴰ.head refl)))
      (created real (app "guid-3" "web") refl refl)
