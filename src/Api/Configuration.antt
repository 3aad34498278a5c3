-- ===== src/Api/Configuration.antt =====
-- The handlers of control_api.rs that take a manifest. A failed apply that was no rehearsal is
-- written down for its source.
use hop_rs.Prelude.{Bool, Option, Text, err, if◌then◌else◌, ok, some, text, true}
use hop_rs.Manifest.{CatalogError, CatalogResult, Manifest}
use hop_rs.Manifest.References.{validate_offline}
use hop_rs.Catalog.{Database}
use hop_rs.Bootstrap.Status.{record_apply_failure}
use hop_rs.Apply.Run.{ApplySummary, ReadPoints, Call, apply, diff, validate_manifest}
use hop_rs.Api.{ControlApiState, Context, parse_payload, ValidateRequest, DiffRequest, ApplyRequest}
use hop_rs.Api.Errors.{ApiResult, from_catalog, Action, ◌>>=◌, ◌>>◌, answer, or_catalog, ask}
use hop_rs.Api.Handlers.{authenticate}

pub record ValidationResponse : Type 0 where
  pub valid : Bool
  pub offline : Bool

-- Every query sees the same catalog.
unfoldable pub reads_at : Database → ReadPoints
reads_at db = record {
  at_revision = db;
  at_generation = db;
  at_credentials = db;
  at_assets = db;
  at_access = db;
}

module _ (c : Context) (state : ControlApiState) where
  unfoldable pub validated : Bool → Manifest → Database → ApiResult (Unit {0})
  unfolding validate_offline validate_manifest or_catalog
  validated offline manifest db =
      if offline
      then or_catalog (validate_offline c.call.world manifest)
      else or_catalog (validate_manifest c.call.world manifest db db)

  unfoldable pub validate_handler : ValidateRequest → Option Text → Action ValidationResponse
  unfolding authenticate parse_payload validated or_catalog
  validate_handler request header = do
    answer (authenticate c state header)
    manifest ← answer (or_catalog (parse_payload c request.manifest))
    ask (validated request.offline manifest)
    answer (ok (record { valid = true; offline = request.offline }))

  -- The call of an apply for a source.
  unfoldable pub call_for : Text → Call
  call_for source_id = record c.call { master = state.master_key; source_id = source_id }

  unfoldable pub diff_handler : DiffRequest → Option Text → Action ApplySummary
  unfolding authenticate parse_payload call_for reads_at or_catalog
  diff_handler request header = do
    answer (authenticate c state header)
    manifest ← answer (or_catalog (parse_payload c request.manifest))
    ask (λ db. elim (diff (call_for request.source_id) manifest request.prune (reads_at db) db) [
      | ok (summary, after) ↦ ok summary
      | err e ↦ err (from_catalog e)
    ])

  -- `let _ = record_apply_failure(…)`: a failure to write it down is ignored.
  unfoldable pub noted_failure : Bool → Text → CatalogError → Database → Database
  unfolding record_apply_failure
  noted_failure dry_run source_id error db =
      if dry_run
      then db
      else elim (record_apply_failure c.call.digests c.failure_id c.call.now source_id (text "api")
          error db) [ ok after ↦ after | err e ↦ db ]

  -- The two arms of the match on the result.
  unfoldable pub applied :
      ApplyRequest → CatalogResult (ApplySummary × Database) → Action ApplySummary
  unfolding noted_failure from_catalog
  applied request (ok (summary, after)) s = (ok summary, record s { catalog = after })
  applied request (err e) s = (
    err (from_catalog e),
    record s { catalog = noted_failure request.dry_run request.source_id e s.catalog },
  )

  -- `parse` and `apply` in a row: both errors are handled alike.
  unfoldable pub apply_payload : ApplyRequest → Database → CatalogResult (ApplySummary × Database)
  unfolding parse_payload call_for reads_at
  apply_payload request db = elim (parse_payload c request.manifest) [
    | err e ↦ err e
    | ok manifest ↦
        apply (call_for request.source_id) manifest
          (record {
            base_revision = some request.base_revision;
            prune = request.prune;
            dry_run = request.dry_run;
          })
          (reads_at db) db
  ]

  unfoldable pub apply_handler : ApplyRequest → Option Text → Action ApplySummary
  unfolding authenticate apply_payload applied
  apply_handler request header = do
    answer (authenticate c state header)
    λ s. applied request (apply_payload request s.catalog) s
