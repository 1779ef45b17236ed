-- ===== src/Names/Duplicate/Steps.antt =====
-- Requests against one scope of names, as steps: the objects that exist, and the registry
-- (controllers/webhooks/validation/duplicate_validator.go, controllers/webhooks/finalizer/webhook.go).
use mathlib.Core.List.{Memᴰ}
use korifi.Base.{String, ◌≡◌, Bool, false, ◌&&◌, none, some, ◌==◌, List, [], ◌∷◌, if◌then◌else◌}
use korifi.Validation.{UniqueObject, ValidationError}
use korifi.Names.Interface.{Context, is_dry_run, NameRegistry}
use korifi.Names.Duplicate.{validate_create, validate_update, validate_delete}
use korifi.Names.Duplicate.Owners.{identity}

abbrev pub same_object : UniqueObject → UniqueObject → Bool
same_object a b = a.namespace == b.namespace && a.name == b.name

-- The objects that are left when the API server has deleted one.
abbrev pub without : UniqueObject → List UniqueObject → List UniqueObject
without obj [] = []
without obj (p ∷ ps) = let rest = without obj ps in if same_object obj p then rest else p ∷ rest

module _ (registry : NameRegistry) (scope : String) where
  open registry use {State}

  pub record World : Type 0 where
    pub names : State
    pub objects : List UniqueObject
    pub leaving : List UniqueObject

  -- Requests, and what becomes of the objects: `objects` are the live ones, `leaving` those that are
  -- being deleted and that a finalizer keeps (controllers/webhooks/finalizer/webhook.go puts one on
  -- most kinds). A request that the webhook admits may still be refused after it, and one that it
  -- refuses is not carried out. A dry run is never carried out. An object that is leaving may be
  -- changed without a call of the validator, and deleted again with one.
  pub data Step (w : World) : World → Type 0 where
    created :
        (ctx : Context) (obj : UniqueObject)
        → is_dry_run ctx ≡ false
        → (validate_create registry ctx scope obj w.names).1 ≡ none
        → Step w (record {
          names = (validate_create registry ctx scope obj w.names).0;
          objects = obj ∷ w.objects;
          leaving = w.leaving;
        })
    not_created :
        (ctx : Context) (obj : UniqueObject)
        → is_dry_run ctx ≡ false
        → Step w (record {
          names = (validate_create registry ctx scope obj w.names).0;
          objects = w.objects;
          leaving = w.leaving;
        })
    updated :
        (ctx : Context) (old obj : UniqueObject)
        → is_dry_run ctx ≡ false
        → Memᴰ old w.objects
        → identity old ≡ identity obj
        → (validate_update registry ctx scope old obj w.names).1 ≡ none
        → Step w (record {
          names = (validate_update registry ctx scope old obj w.names).0;
          objects = obj ∷ without old w.objects;
          leaving = w.leaving;
        })
    not_updated :
        (ctx : Context) (old obj : UniqueObject) (e : ValidationError)
        → is_dry_run ctx ≡ false
        → (validate_update registry ctx scope old obj w.names).1 ≡ some e
        → Step w (record {
          names = (validate_update registry ctx scope old obj w.names).0;
          objects = w.objects;
          leaving = w.leaving;
        })
    deleted :
        (ctx : Context) (obj : UniqueObject)
        → is_dry_run ctx ≡ false
        → Memᴰ obj w.objects
        → (validate_delete registry ctx scope obj w.names).1 ≡ none
        → Step w (record {
          names = (validate_delete registry ctx scope obj w.names).0;
          objects = without obj w.objects;
          leaving = w.leaving;
        })
    left :
        (ctx : Context) (obj : UniqueObject)
        → is_dry_run ctx ≡ false
        → Memᴰ obj w.objects
        → (validate_delete registry ctx scope obj w.names).1 ≡ none
        → Step w (record {
          names = (validate_delete registry ctx scope obj w.names).0;
          objects = without obj w.objects;
          leaving = obj ∷ w.leaving;
        })
    finalized :
        (leaving : List UniqueObject)
        → Step w (record { names = w.names; objects = w.objects; leaving = leaving })
    deleted_again :
        (ctx : Context) (obj : UniqueObject)
        → is_dry_run ctx ≡ false
        → Memᴰ obj w.leaving
        → Step w (record {
          names = (validate_delete registry ctx scope obj w.names).0;
          objects = w.objects;
          leaving = w.leaving;
        })
    update_lost :
        (ctx : Context) (old obj : UniqueObject)
        → is_dry_run ctx ≡ false
        → Memᴰ old w.objects
        → Step w (record {
          names = (validate_update registry ctx scope old obj w.names).0;
          objects = w.objects;
          leaving = w.leaving;
        })
    delete_lost :
        (ctx : Context) (obj : UniqueObject)
        → is_dry_run ctx ≡ false
        → Memᴰ obj w.objects
        → Step w (record {
          names = (validate_delete registry ctx scope obj w.names).0;
          objects = w.objects;
          leaving = w.leaving;
        })
    not_deleted :
        (ctx : Context) (obj : UniqueObject) (e : ValidationError)
        → is_dry_run ctx ≡ false
        → (validate_delete registry ctx scope obj w.names).1 ≡ some e
        → Step w (record {
          names = (validate_delete registry ctx scope obj w.names).0;
          objects = w.objects;
          leaving = w.leaving;
        })

  pub data Reach (w : World) : World → Type 0 where
    here : Reach w w
    next : {u v : World} → Reach w u → Step u v → Reach w v

  -- No object that is being deleted is deleted again, and no update or deletion that the webhook
  -- admits is refused after it.
  unfoldable pub IsOrderly : {u v : World} → Step u v → Type 0
  IsOrderly (created ctx obj live admitted) = Unit
  IsOrderly (not_created ctx obj live) = Unit
  IsOrderly (updated ctx old obj live mem same admitted) = Unit
  IsOrderly (not_updated ctx old obj e live refused) = Unit
  IsOrderly (deleted ctx obj live mem admitted) = Unit
  IsOrderly (left ctx obj live mem admitted) = Unit
  IsOrderly (finalized leaving) = Unit
  IsOrderly (not_deleted ctx obj e live refused) = Unit
  IsOrderly (deleted_again ctx obj live mem) = ⊥
  IsOrderly (update_lost ctx old obj live mem) = ⊥
  IsOrderly (delete_lost ctx obj live mem) = ⊥

  unfoldable pub AllOrderly : {w v : World} → Reach w v → Type 0
  unfolding IsOrderly
  AllOrderly here = Unit
  AllOrderly (next r st) = AllOrderly r × IsOrderly st
