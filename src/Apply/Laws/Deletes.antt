-- ===== src/Apply/Laws/Deletes.antt =====
-- Proofs about `validate_credential_deletes` of apply.rs.
use hop_rs.Prelude.{
  Elem, Elem-keep, List, [], ap, arith, false, here, not, ok, some, there, true, ◌||◌, ◌∙◌, ◌∷◌,
  ◌≡◌, ◌≢◌,
}
use hop_rs.Prelude.Map.{Map}
use hop_rs.Catalog.{credential}
use hop_rs.Apply.{ResourceRef, Plan, ExistingAsset, is_text}
use hop_rs.Apply.Claims.{is_text_iff}
use hop_rs.Apply.Load.{values}
use hop_rs.Apply.Deletes.{
  of_type, final_credential, asset_deleted, check_unused, check_all_unused,
  validate_credential_deletes,
}

check_unused-holds :
    (plan : Plan) (c : ResourceRef) (existing : List ExistingAsset) (a : ExistingAsset)
    → check_unused plan c existing ≡ ok tt
    → Elem a existing
    → (asset_deleted plan a || not (is_text (final_credential plan a) c.id)) ≡ true
unfolding check_unused
check_unused-holds plan c [] a h i = elim i [ ]
check_unused-holds plan c (x ∷ existing) a h (here same) =
    let passes : (asset_deleted plan x || not (is_text (final_credential plan x) c.id)) ≡ true =
      ground arith in
    ap (λ y. asset_deleted plan y || not (is_text (final_credential plan y) c.id)) same ∙ passes
check_unused-holds plan c (x ∷ existing) a h (there later) =
    check_unused-holds plan c existing a (ground arith) later

check_all_unused-holds :
    (plan : Plan) (cs : List ResourceRef) (existing : List ExistingAsset) (c : ResourceRef)
    → check_all_unused plan cs existing ≡ ok tt
    → Elem c cs
    → check_unused plan c existing ≡ ok tt
unfolding check_all_unused
check_all_unused-holds plan [] existing c h i = elim i [ ]
check_all_unused-holds plan (d ∷ cs) existing c h (here same) =
    ap (λ e. check_unused plan e existing) same ∙ ground arith
check_all_unused-holds plan (d ∷ cs) existing c h (there later) =
    check_all_unused-holds plan cs existing c (ground arith) later

-- A plan that passes the check deletes no credential that an asset keeps: where an asset that is
-- there stays after the plan, the credential it refers to then is not one of the deletions.
pub validate_credential_deletes-keeps :
    (plan : Plan) (existing : Map ExistingAsset) (a : ExistingAsset) (c : ResourceRef)
    → validate_credential_deletes plan existing ≡ ok tt
    → Elem a (values existing)
    → Elem c plan.deletes
    → of_type credential c ≡ true
    → asset_deleted plan a ≡ false
    → final_credential plan a ≢ some c.id
unfolding validate_credential_deletes
validate_credential_deletes-keeps plan existing a c h stands removed typed stays refers =
    let chosen = Elem-keep (of_type credential) c plan.deletes removed typed in
    let checked = check_all_unused-holds plan _ (values existing) c h chosen in
    let unused = check_unused-holds plan c (values existing) a checked stands in
    ground (arith, is_text_iff (final_credential plan a) c.id)
