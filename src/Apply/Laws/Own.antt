-- ===== src/Apply/Laws/Own.antt =====
-- Proofs about the resources that a plan of apply.rs touches.
use hop_rs.Prelude.{
  Bool, Elem, List, Option, Text, [], any, any-Elem, ap, arith, eq_refl, every, every-append,
  first_step, here, if-cases, is_none, none, not, ok, ok-injective, ok-pair, refl, some, sym, there,
  true, ◌&&◌, ◌==◌, ◌||◌, ◌∙◌, ◌∷◌, ◌≡◌,
}
use hop_rs.Prelude.Map.{Map, lookup, contains}
use hop_rs.Catalog.{ResourceType, credential, asset, access_key}
use hop_rs.Apply.{
  ApplyAction, ResourceRef, Plan, ExistingResource, is_text, ensure_owned, plan_absent,
  plan_missing, miss_one, push_change, push_delete, push_orphan, classify_present,
}

-- A resource that is there under the name, with the id, and belongs to the source.
abbrev pub own : Text → Map ExistingResource → Text → Text → Bool
own source_id existing name id =
    any (λ (n, r). n == name && r.id == id && is_text r.source_id source_id) existing

module _ (source_id : Text) (rows : ResourceType → Map ExistingResource)
    (fresh : ResourceType → Text → Text) where
  abbrev pub own_ref : ResourceRef → Bool
  own_ref r = own source_id (rows r.resource_type) r.name r.id

  -- The id is drawn for a new resource of the name, or it is that of a resource of the source.
  abbrev pub drawn_or_own : ResourceType → Text → Text → Bool
  drawn_or_own type name id = id == fresh type name || own source_id (rows type) name id

  -- Everything that the plan writes or removes is new, or belongs to the source.
  abbrev pub IsOwnPlan : Plan → Type 0
  IsOwnPlan plan =
      (every own_ref plan.deletes ≡ true)
      × (every own_ref plan.orphans ≡ true)
      × (every (λ u. drawn_or_own credential u.name u.id) plan.credential_upserts ≡ true)
      × (every (λ u. drawn_or_own asset u.name u.id) plan.asset_upserts ≡ true)
      × (every (λ u. drawn_or_own access_key u.name u.id) plan.access_upserts ≡ true)

  pub push_delete-IsOwnPlan :
      (plan : Plan) (type : ResourceType) (id name : Text)
      → own source_id (rows type) name id ≡ true
      → IsOwnPlan plan
      → IsOwnPlan (push_delete plan type id name)
  unfolding push_delete
  push_delete-IsOwnPlan plan type id name owned (d, o, c, a, k) =
      (every-append own_ref plan.deletes _ ∙ ground arith, o, c, a, k)

  pub push_orphan-IsOwnPlan :
      (plan : Plan) (type : ResourceType) (id name : Text)
      → own source_id (rows type) name id ≡ true
      → IsOwnPlan plan
      → IsOwnPlan (push_orphan plan type id name)
  unfolding push_orphan
  push_orphan-IsOwnPlan plan type id name owned (d, o, c, a, k) =
      (d, every-append own_ref plan.orphans _ ∙ ground arith, c, a, k)

  pub push_change-IsOwnPlan :
      (plan : Plan) (type : ResourceType) (name : Text) (action : ApplyAction)
      → IsOwnPlan plan
      → IsOwnPlan (push_change plan type name action)
  unfolding push_change
  push_change-IsOwnPlan plan type name action h = h

  -- A row that the map gives for a name, and that belongs to the source.
  pub own-lookup :
      (existing : Map ExistingResource) (name : Text) (r : ExistingResource)
      → lookup name existing ≡ some r
      → is_text r.source_id source_id ≡ true
      → own source_id existing name r.id ≡ true
  unfolding lookup
  own-lookup [] name r found owned = cc
  own-lookup ((n, q) ∷ existing) name r found owned =
      let later = own-lookup existing name r in ground (arith, eq_refl r.id, later)

  pub ensure_owned-source :
      (e : ExistingResource) (path : Text)
      → ensure_owned e source_id path ≡ ok tt
      → is_text e.source_id source_id ≡ true
  unfolding ensure_owned
  ensure_owned-source e path h = ground arith

  pub IsOwnPlan-of_same : {plan after : Plan} → plan ≡ after → IsOwnPlan plan → IsOwnPlan after
  IsOwnPlan-of_same same o = rw (← same) o

  pub plan_absent-IsOwnPlan :
      (plan after : Plan) (type : ResourceType) (name path : Text)
      (existing : Option ExistingResource)
      → existing ≡ lookup name (rows type)
      → plan_absent plan type name existing source_id path ≡ ok after
      → IsOwnPlan plan
      → IsOwnPlan after
  unfolding plan_absent
  plan_absent-IsOwnPlan plan after type name path none found h o =
      IsOwnPlan-of_same (ok-injective h) o
  plan_absent-IsOwnPlan plan after type name path (some e) found h o =
      let (_, owned, h1) = first_step (ensure_owned e source_id path) _ h in
      let source = ensure_owned-source e path owned in
      let removed =
        push_delete-IsOwnPlan plan type e.id name (own-lookup (rows type) name e (sym found) source)
          o in
      IsOwnPlan-of_same (ok-injective h1) removed

  -- A row of the map that belongs to the source is one of its own.
  own-Elem :
      (existing : Map ExistingResource) (name : Text) (r : ExistingResource)
      → Elem (name, r) existing
      → is_text r.source_id source_id ≡ true
      → own source_id existing name r.id ≡ true
  own-Elem existing name r stands owned =
      any-Elem (λ (n, q). n == name && q.id == r.id && is_text q.source_id source_id) (name, r)
        existing stands (ground (arith, eq_refl name, eq_refl r.id))

  pub miss_one-IsOwnPlan :
      (plan : Plan) (type : ResourceType) (name : Text) (r : ExistingResource)
      (mentioned : List Text) (prune : Bool)
      → Elem (name, r) (rows type)
      → IsOwnPlan plan
      → IsOwnPlan (miss_one plan type name r mentioned source_id prune)
  unfolding miss_one
  miss_one-IsOwnPlan plan type name r mentioned prune stands o =
      if-cases IsOwnPlan (not (is_text r.source_id source_id) || contains name mentioned)
        (λ stays. o)
        (λ lapses.
          let owned = own-Elem (rows type) name r stands (ground arith) in
          if-cases IsOwnPlan prune (λ on. push_delete-IsOwnPlan plan type r.id name owned o)
            (λ off.
              if-cases IsOwnPlan (is_none r.orphaned_at)
                (λ fresh_orphan. push_orphan-IsOwnPlan plan type r.id name owned o) (λ orphan. o)))

  pub plan_missing-IsOwnPlan :
      (plan : Plan) (type : ResourceType) (existing : Map ExistingResource) (mentioned : List Text)
      (prune : Bool)
      → ((e : Text × ExistingResource) → Elem e existing → Elem e (rows type))
      → IsOwnPlan plan
      → IsOwnPlan (plan_missing plan type existing mentioned source_id prune)
  unfolding plan_missing
  plan_missing-IsOwnPlan plan type [] mentioned prune sub o = o
  plan_missing-IsOwnPlan plan type ((name, r) ∷ existing) mentioned prune sub o =
      plan_missing-IsOwnPlan (miss_one plan type name r mentioned source_id prune) type existing
        mentioned prune (λ e stands. sub e (there stands))
        (miss_one-IsOwnPlan plan type name r mentioned prune (sub (name, r) (here refl)) o)

  pub classify_present-drawn_or_own :
      (type : ResourceType) (name hash path id : Text) (existing : Option ExistingResource)
      (action : ApplyAction)
      → existing ≡ lookup name (rows type)
      → classify_present (fresh type name) existing source_id hash path ≡ ok (id, action)
      → drawn_or_own type name id ≡ true
  unfolding classify_present
  classify_present-drawn_or_own type name hash path id none action found h =
      let (drawn, _) = ok-pair h in
      ap (λ i. drawn_or_own type name i) (sym drawn) ∙ ground (arith, eq_refl (fresh type name))
  classify_present-drawn_or_own type name hash path id (some e) action found h =
      let (_, owned, h1) = first_step (ensure_owned e source_id path) _ h in
      let (same, _) = ok-pair h1 in
      let owner = own-lookup (rows type) name e (sym found) (ensure_owned-source e path owned) in
      ap (λ i. drawn_or_own type name i) (sym same) ∙ ground arith
