-- ===== src/Apply/Owned.antt =====
-- Proofs about `plan_missing` of apply.rs.
use hop_rs.Prelude.{
  Bool, List, Text, [], ap, append-nil, append_assoc, arith, false, if◌then◌else◌, is_none, keep,
  map, not, refl, sym, true, ◌&&◌, ◌++◌, ◌∙◌, ◌∷◌, ◌≡◌,
}
use hop_rs.Prelude.Map.{Map, contains}
use hop_rs.Catalog.{ResourceType}
use hop_rs.Apply.{
  ResourceRef, Plan, ExistingResource, is_text, push_change, push_delete, push_orphan, miss_one,
  plan_missing,
}

-- The source declared the resource, and its manifest no longer mentions it.
abbrev pub lapsed : List Text → Text → Text × ExistingResource → Bool
lapsed mentioned source_id (name, r) =
    is_text r.source_id source_id && not (contains name mentioned)

-- It has lapsed, and has not been orphaned by an earlier apply.
abbrev pub newly_lapsed : List Text → Text → Text × ExistingResource → Bool
newly_lapsed mentioned source_id (name, r) =
    lapsed mentioned source_id (name, r) && is_none r.orphaned_at

abbrev pub reference : ResourceType → Text × ExistingResource → ResourceRef
reference type (name, r) = record { resource_type = type; id = r.id; name = name }

module _ (type : ResourceType) (mentioned : List Text) (source_id : Text) where
  miss_one-prune :
      (plan : Plan) (name : Text) (r : ExistingResource)
      → let after = miss_one plan type name r mentioned source_id true in
        (after.orphans ≡ plan.orphans)
        × (after.deletes ≡ (
            if lapsed mentioned source_id (name, r)
            then plan.deletes ++ (reference type (name, r) ∷ [])
            else plan.deletes))
  unfolding miss_one push_change push_delete push_orphan
  miss_one-prune plan name r = ground arith

  miss_one-keep :
      (plan : Plan) (name : Text) (r : ExistingResource)
      → let after = miss_one plan type name r mentioned source_id false in
        (after.deletes ≡ plan.deletes)
        × (after.orphans ≡ (
            if newly_lapsed mentioned source_id (name, r)
            then plan.orphans ++ (reference type (name, r) ∷ [])
            else plan.orphans))
  unfolding miss_one push_change push_delete push_orphan
  miss_one-keep plan name r = ground arith

  collected :
      (b : Bool) (x : ResourceRef) (done rest : List ResourceRef)
      → (if b then done ++ (x ∷ []) else done) ++ rest ≡ done ++ (if b then x ∷ rest else rest)
  collected true x done rest = append_assoc done (x ∷ []) rest
  collected false x done rest = refl

  map-if :
      (b : Bool) (e : Text × ExistingResource) (es : Map ExistingResource)
      → (if b then reference type e ∷ map (reference type) es else map (reference type) es)
        ≡ map (reference type) (if b then e ∷ es else es)
  map-if true e es = refl
  map-if false e es = refl

  -- With pruning, exactly the resources of the source that the manifest no longer mentions are
  -- added to the deletions, in their order, and nothing is orphaned.
  pub plan_missing-prune :
      (existing : Map ExistingResource) (plan : Plan)
      → let after = plan_missing plan type existing mentioned source_id true in
        (after.orphans ≡ plan.orphans)
        × (after.deletes
            ≡ plan.deletes ++ map (reference type) (keep (lapsed mentioned source_id) existing))
  unfolding plan_missing
  plan_missing-prune [] plan = (refl, sym (append-nil plan.deletes))
  plan_missing-prune ((name, r) ∷ existing) plan =
      let test = lapsed mentioned source_id (name, r) in
      let (o, d) = miss_one-prune plan name r in
      let (os, ds) =
        plan_missing-prune existing (miss_one plan type name r mentioned source_id true) in
      let more = map (reference type) (keep (lapsed mentioned source_id) existing) in
      (
        os ∙ o,
        ds
            ∙ ap (λ l. l ++ more) d
            ∙ collected test (reference type (name, r)) plan.deletes more
            ∙ ap (λ l. plan.deletes ++ l)
                (map-if test (name, r) (keep (lapsed mentioned source_id) existing)),
      )

  -- Without pruning nothing is deleted, and exactly the resources of the source that the manifest
  -- no longer mentions, and that are not orphaned yet, are added to the orphans, in their order.
  pub plan_missing-keep :
      (existing : Map ExistingResource) (plan : Plan)
      → let after = plan_missing plan type existing mentioned source_id false in
        (after.deletes ≡ plan.deletes)
        × (after.orphans
            ≡ plan.orphans
              ++ map (reference type) (keep (newly_lapsed mentioned source_id) existing))
  unfolding plan_missing
  plan_missing-keep [] plan = (refl, sym (append-nil plan.orphans))
  plan_missing-keep ((name, r) ∷ existing) plan =
      let test = newly_lapsed mentioned source_id (name, r) in
      let (d, o) = miss_one-keep plan name r in
      let (ds, os) =
        plan_missing-keep existing (miss_one plan type name r mentioned source_id false) in
      let more = map (reference type) (keep (newly_lapsed mentioned source_id) existing) in
      (
        ds ∙ d,
        os
            ∙ ap (λ l. l ++ more) o
            ∙ collected test (reference type (name, r)) plan.orphans more
            ∙ ap (λ l. plan.orphans ++ l)
                (map-if test (name, r) (keep (newly_lapsed mentioned source_id) existing)),
      )
