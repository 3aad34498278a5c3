-- ===== src/Api/Laws/Applies.antt =====
-- The applies of the management interface.
use hop_rs.Prelude.{
  Bool, Option, Outcome-cases, Text, ap, err, false, inl, inr, ok, refl, sym, text, true, ◌∙◌, ◌≡◌,
  ◌⊎◌,
}
use std.Path.{subst}
use hop_rs.Errors.{Result}
use hop_rs.Manifest.{CatalogError}
use hop_rs.Catalog.{Database}
use hop_rs.Bootstrap.Status.{record_apply_failure}
use hop_rs.Bootstrap.Noted.{NotesFailure, record_apply_failure-NotesFailure}
use hop_rs.Api.{ControlApiState, Server, Context, ApplyRequest}
use hop_rs.Api.Errors.{ApiError, from_catalog}
use hop_rs.Api.Handlers.{authenticate}
use hop_rs.Api.Configuration.{noted_failure, apply_payload, apply_handler}

-- What is left of the catalog by a failure that is noted, where it is.
noted_failure-NotesFailure :
    (c : Context) (st : ControlApiState) (dry_run : Bool) (source_id : Text) (e : CatalogError)
    (db : Database)
    → (noted_failure c st dry_run source_id e db ≡ db)
      ⊎ ((dry_run ≡ false)
          × NotesFailure c.call.now source_id
              (text "api")
              e
              db
              (noted_failure c st dry_run source_id e db))
unfolding noted_failure
noted_failure-NotesFailure c st true source_id e db = inl refl
noted_failure-NotesFailure c st false source_id e db =
    go (record_apply_failure c.call.digests c.failure_id c.call.now source_id (text "api") e db)
      refl
  where
    go :
        (r : Result Database)
        → record_apply_failure c.call.digests c.failure_id c.call.now source_id (text "api") e db
          ≡ r
        → let left : Database = elim r [ ok after ↦ after | err x ↦ db ] in
          (left ≡ db)
          ⊎ ((◌≡◌ {A = Bool} false false)
              × NotesFailure c.call.now source_id (text "api") e db left)
    go (err x) h = inl refl
    go (ok after) h = inr (
      refl,
      record_apply_failure-NotesFailure c.call.digests c.failure_id c.call.now source_id
          (text "api") e db after h,
    )

-- An apply that the management interface refuses, for its token, its manifest or its plan, leaves
-- the sessions alone, and the catalog too but for one thing: where it was no rehearsal, the error
-- that it answers with may be written down, as one more event, and as the last error of its source,
-- of which nothing else changes. All resources, owners, other sources and earlier events stay, and
-- so does the revision.
pub apply_handler-refused :
    (c : Context) (st : ControlApiState) (request : ApplyRequest) (h : Option Text)
    (s after : Server) (e : ApiError)
    → apply_handler c st request h s ≡ (err e, after)
    → (after.active_sessions ≡ s.active_sessions)
      × ((after.catalog ≡ s.catalog)
          ⊎ ((x : CatalogError) × (request.dry_run ≡ false)
              × (apply_payload c st request s.catalog ≡ err x)
              × (e ≡ from_catalog x)
              × NotesFailure c.call.now request.source_id (text "api") x s.catalog after.catalog))
unfolding apply_handler
apply_handler-refused c st request h s after e run = elim (Outcome-cases (authenticate c st h)) [
  | inr (x, refused) ↦
      let left : s ≡ after = ap (λ r. r.1) (rw (refused) at run) in
      (ap (λ t. t.active_sessions) (sym left), inl (ap (λ t. t.catalog) (sym left)))
  | inl (_, entered) ↦ elim (Outcome-cases (apply_payload c st request s.catalog)) [
    | inl ((summary, written), done) ↦ let answered = rw (entered, done) at run in cc
    | inr (x, failed) ↦
        let answered = rw (entered, failed) at run in
        let noted : noted_failure c st request.dry_run request.source_id x s.catalog
            ≡ after.catalog =
          ap (λ r. r.1.catalog) answered in
        let sessions : s.active_sessions ≡ after.active_sessions =
          ap (λ r. r.1.active_sessions) answered in
        let told : from_catalog x ≡ e = cc in
        (
          sym sessions,
          elim (noted_failure-NotesFailure c st request.dry_run request.source_id x s.catalog) [
            | inl kept ↦ inl (sym noted ∙ kept)
            | inr (wet, notes) ↦ inr (
              x,
              wet,
              failed,
              sym told,
              subst (λ d. NotesFailure c.call.now request.source_id (text "api") x s.catalog d)
                  noted notes,
            )
          ],
        )
  ]
]
