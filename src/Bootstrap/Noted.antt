-- ===== src/Bootstrap/Noted.antt =====
-- What is written down of a failed apply, `record_apply_failure` of catalog.rs.
use hop_rs.Prelude.{
  List, Option, Option-cases, Text, [], any, ap, arith, ensure, eq_iff, false, find, first_step,
  if◌then◌else◌, inl, inr, is_some, none, not, ok, ok-injective, option_map, refl, some, text, true,
  unwrap_or, update_where, ◌==◌, ◌∙◌, ◌∷◌, ◌≡◌,
}
use std.Path.{subst}
use hop_rs.Errors.{database, constraint_failed}
use hop_rs.Manifest.{CatalogError}
use hop_rs.Catalog.{ConfigSource, AuditEvent, Database}
use hop_rs.Apply.Hashes.{Digests}
use hop_rs.Apply.Execute.{insert_audit_event}
use hop_rs.Bootstrap.Status.{
  error_code_as_str, record_failure, failure_details, record_apply_failure,
}

-- What is known of a source.
abbrev pub source_of : Text → Database → Option ConfigSource
source_of id db = find (λ s. s.source_id == id) db.config_sources

-- A source that failed: its last success is the one it had, or none yet.
abbrev pub failed_source : Text → Text → CatalogError → Option ConfigSource → ConfigSource
failed_source now source_id error known =
    record (unwrap_or
      (record {
        source_id = source_id;
        generation = 0;
        last_success_at = none;
        last_success_revision = none;
        last_error_at = none;
        last_error_code = none;
        last_error_message = none;
      })
      known) {
        last_error_at = some now;
        last_error_code = some (error_code_as_str error.code);
        last_error_message = some error.message;
      }

-- All that a catalog holds but what is known of its sources and what was done to it.
abbrev pub SameResources : Database → Database → Type 0
SameResources a b =
    (a.revision ≡ b.revision)
    × (a.credentials ≡ b.credentials)
    × (a.assets ≡ b.assets)
    × (a.access_keys ≡ b.access_keys)
    × (a.access_key_assets ≡ b.access_key_assets)
    × (a.resource_ownership ≡ b.resource_ownership)
    × (a.known_hosts ≡ b.known_hosts)
    × (a.sessions ≡ b.sessions)

-- One event is added, and what is known of one source has the failure for its last error.
abbrev pub NotesFailure : Text → Text → Text → CatalogError → Database → Database → Type 0
NotesFailure now source_id actor_label error before after =
    SameResources after before
    × (event : AuditEvent) × (after.audit_events ≡ event ∷ before.audit_events)
    × (event.actor_label ≡ actor_label)
    × (event.action ≡ text "config.apply")
    × (event.target_id ≡ some source_id)
    × (event.result ≡ text "failed")
    × ((id : Text)
        → source_of id after ≡ (
            if source_id == id
            then some (failed_source now source_id error (source_of source_id before))
            else source_of id before))

find-update_where :
    (renew : ConfigSource → ConfigSource) (source_id id : Text) (rows : List ConfigSource)
    → ((s : ConfigSource) → (renew s).source_id ≡ s.source_id)
    → find (λ s. s.source_id == id) (update_where (λ s. s.source_id == source_id) renew rows) ≡ (
        if source_id == id
        then option_map renew (find (λ s. s.source_id == source_id) rows)
        else find (λ s. s.source_id == id) rows)
find-update_where renew source_id id [] keeps = ground arith
find-update_where renew source_id id (s ∷ rows) keeps = ground (
  arith,
  keeps s,
  eq_iff source_id id,
  eq_iff s.source_id source_id,
  eq_iff s.source_id id,
  find-update_where renew source_id id rows keeps,
)

any-find :
    (source_id : Text) (rows : List ConfigSource)
    → any (λ s. s.source_id == source_id) rows ≡ is_some (find (λ s. s.source_id == source_id) rows)
any-find source_id [] = refl
any-find source_id (s ∷ rows) = ground (arith, any-find source_id rows)

source_of-record_failure :
    (now source_id id : Text) (error : CatalogError) (db : Database)
    → source_of id (record_failure now source_id error db) ≡ (
        if source_id == id
        then some (failed_source now source_id error (source_of source_id db))
        else source_of id db)
unfolding record_failure
source_of-record_failure now source_id id error db = elim (Option-cases (source_of source_id db)) [
  | inl unknown ↦
      let missed : any (λ s. s.source_id == source_id) db.config_sources ≡ false =
        any-find source_id db.config_sources ∙ ap is_some unknown in
      rw (record_failure, missed, unknown) refl
  | inr (known, found) ↦
      let hit : any (λ s. s.source_id == source_id) db.config_sources ≡ true =
        any-find source_id db.config_sources ∙ ap is_some found in
      let renewed =
        find-update_where
          (λ s. record s {
            last_error_at = some now;
            last_error_code = some (error_code_as_str error.code);
            last_error_message = some error.message;
          })
          source_id id db.config_sources (λ s. refl) in
      rw (record_failure, hit) (renewed ∙ rw found refl)
]

-- A failure that is written down adds its event, and changes what is known of its source alone.
pub record_apply_failure-NotesFailure :
    (digests : Digests) (event_id now source_id actor_label : Text) (error : CatalogError)
    (db after : Database)
    → record_apply_failure digests event_id now source_id actor_label error db ≡ ok after
    → NotesFailure now source_id actor_label error db after
unfolding record_apply_failure record_failure insert_audit_event
record_apply_failure-NotesFailure digests event_id now source_id actor_label error db after h =
    let event : AuditEvent = record {
      id = event_id;
      actor_label = actor_label;
      action = text "config.apply";
      target_type = text "config_source";
      target_id = some source_id;
      target_label = some source_id;
      result = text "failed";
      details_json = some (digests.json_to_string (failure_details source_id error));
    } in
    let noted = record_failure now source_id error db in
    let (_, _, written) =
      first_step
        (ensure (not (any (λ e. e.id == event_id) noted.audit_events)) (database constraint_failed))
        _ h in
    let same : record noted { audit_events = event ∷ noted.audit_events } ≡ after =
      ok-injective written in
    subst (λ d. NotesFailure now source_id actor_label error db d) same
      (
        (refl, refl, refl, refl, refl, refl, refl, refl),
        event,
        refl,
        refl,
        refl,
        refl,
        refl,
        λ id. source_of-record_failure now source_id id error db,
      )
