-- ===== src/Apply/Run.antt =====
-- `Catalog::apply`, `diff` and `validate_manifest` of apply.rs. Each query before the transaction
-- sees the state at its own time, and the transaction the state at `begin`.
use hop_rs.Prelude.{
  Bool, List, Option, Text, [], any, byte_len, count, decimal, ensure, every, false, find,
  if◌then◌else◌, is_ascii_alphanumeric, is_empty, leb, nat_eq, none, not, ok, option_map, some,
  text, true, unwrap_or, ℕ, ◌&&◌, ◌++◌, ◌+◌, ◌==◌, ◌>>=◌, ◌>>◌, ◌||◌, ◌∷◌,
}
use hop_rs.Prelude.Int.{int_decimal, ℤ, pos, int_eq_nat}
use hop_rs.Prelude.Map.{keys}
use hop_rs.Manifest.{
  CatalogError, CatalogResult, invalid_resource_name, revision_conflict, Manifest, Environment,
}
use hop_rs.Manifest.Resolve.{resolve_material}
use hop_rs.Manifest.References.{validate_references}
use hop_rs.Catalog.{ResourceType, Database}
use hop_rs.Envelope.{Bytes, MasterKey, Ciphers}
use hop_rs.Apply.{ApplyAction, created, updated, deleted, orphaned, unchanged, ApplyChange, Plan}
use hop_rs.Apply.Hashes.{Digests, JsonObject, text_value, number_value}
use hop_rs.Apply.Load.{load_credentials, load_assets, load_access}
use hop_rs.Apply.Build.{build_plan, is_unchanged}
use hop_rs.Apply.Execute.{execute_plan}

pub record ApplyOptions : Type 0 where
  pub base_revision : Option ℤ
  pub prune : Bool
  pub dry_run : Bool

pub record ApplySummary : Type 0 where
  pub source_id : Text
  pub base_revision : ℕ
  pub new_revision : ℕ
  pub generation : ℕ
  pub dry_run : Bool
  pub created : ℕ
  pub updated : ℕ
  pub deleted : ℕ
  pub orphaned : ℕ
  pub unchanged : ℕ
  pub changes : List ApplyChange

unfoldable pub same_action : ApplyAction → ApplyAction → Bool
same_action created created = true
same_action updated updated = true
same_action deleted deleted = true
same_action orphaned orphaned = true
same_action unchanged unchanged = true
same_action _ _ = false

-- `Plan::changed`
unfoldable pub changed : Plan → Bool
unfolding is_unchanged
changed plan = any (λ c. not (is_unchanged c.action)) plan.changes

abbrev pub count_action : ApplyAction → List ApplyChange → ℕ
count_action action changes = count (λ c. same_action c.action action) changes

-- `Plan::summary`
unfoldable pub summary : Plan → Text → ℕ → ℕ → ℕ → Bool → ApplySummary
unfolding same_action
summary plan source_id base_revision new_revision generation dry_run = record {
  source_id = source_id;
  base_revision = base_revision;
  new_revision = new_revision;
  generation = generation;
  dry_run = dry_run;
  created = count_action ApplyAction.created plan.changes;
  updated = count_action ApplyAction.updated plan.changes;
  deleted = count_action ApplyAction.deleted plan.changes;
  orphaned = count_action ApplyAction.orphaned plan.changes;
  unchanged = count_action ApplyAction.unchanged plan.changes;
  changes = plan.changes;
}

-- A character of a source id.
unfoldable pub source_id_char : ℕ → Bool
unfolding is_ascii_alphanumeric
source_id_char c = is_ascii_alphanumeric c || nat_eq c b'-' || nat_eq c b'_' || nat_eq c b'.'

unfoldable pub validate_source_id : Text → CatalogResult (Unit {0})
unfolding source_id_char byte_len is_empty
validate_source_id source_id =
    ensure
      (not (is_empty source_id) && leb (byte_len source_id) 128 && every source_id_char source_id)
      (record {
        code = invalid_resource_name;
        path = some (text "source_id");
        message = text "source_id must contain only ASCII letters, digits, '.', '-' or '_'";
      })

-- `revision_conflict`
unfoldable pub conflict : ℤ → ℕ → CatalogError
unfolding int_decimal decimal
conflict expected actual = record {
  code = revision_conflict;
  path = some (text "catalog_revision");
  message =
      text "base revision "
      ++ (int_decimal expected ++ (text " does not match current revision " ++ decimal actual));
}

unfoldable pub source_generation : Text → Database → ℕ
source_generation source_id db =
    unwrap_or 0
      (option_map (λ s. s.generation) (find (λ s. s.source_id == source_id) db.config_sources))

unfoldable pub check_base : Option ℤ → ℕ → CatalogResult (Unit {0})
unfolding int_eq_nat conflict
check_base none revision = ok tt
check_base (some expected) revision =
    ensure (int_eq_nat expected revision) (conflict expected revision)

-- `i64::from(bool)`
abbrev pub one_if : Bool → ℕ
one_if b = if b then 1 else 0

-- The state that each query before the transaction sees.
pub record ReadPoints : Type 0 where
  pub at_revision : Database
  pub at_generation : Database
  pub at_credentials : Database
  pub at_assets : Database
  pub at_access : Database

-- What the call is made with: the environment and the libraries, the ids and nonces that it draws,
-- the time, the master key and the source.
pub record Call : Type 0 where
  pub world : Environment
  pub digests : Digests
  pub ciphers : Ciphers
  pub fresh : ResourceType → Text → Text
  pub event_id : Text
  pub nonces : Text → Bytes
  pub now : Text
  pub master : MasterKey
  pub source_id : Text

unfoldable pub apply_details : Text → ApplySummary → JsonObject
apply_details source_id s =
    (text "source_id", text_value source_id)
    ∷ (text "base_revision", number_value s.base_revision)
    ∷ (text "new_revision", number_value s.new_revision)
    ∷ (text "created", number_value s.created)
    ∷ (text "updated", number_value s.updated)
    ∷ (text "deleted", number_value s.deleted)
    ∷ (text "orphaned", number_value s.orphaned)
    ∷ []

module _ (call : Call) where
  -- The transaction: the lock on the revision, and the statements.
  unfoldable pub commit_plan : Plan → ApplySummary → Database → CatalogResult Database
  unfolding execute_plan conflict apply_details
  commit_plan plan s db = do
    ensure (nat_eq db.revision s.base_revision) (conflict (pos s.base_revision) db.revision)
    execute_plan call.now call.source_id s.generation s.new_revision call.ciphers call.nonces
        call.master call.event_id (call.digests.json_to_string (apply_details call.source_id s))
        plan db

  -- What is read and planned, and the summary of it.
  unfoldable pub prepare :
      Manifest → ApplyOptions → ReadPoints → CatalogResult (Plan × ApplySummary)
  unfolding validate_source_id check_base source_generation resolve_material build_plan
      load_credentials load_assets load_access changed summary
  prepare manifest options reads = do
    _ ← validate_source_id call.source_id
    let base_revision = reads.at_revision.revision
    _ ← check_base options.base_revision base_revision
    let current_generation = source_generation call.source_id reads.at_generation
    resolved ← resolve_material call.world manifest
    plan ←
        build_plan call.fresh call.digests call.master call.source_id
          (load_credentials reads.at_credentials) (load_assets reads.at_assets)
          (load_access reads.at_access) resolved options.prune
    let step = one_if (changed plan)
    ok (
      plan,
      summary plan call.source_id base_revision (base_revision + step) (current_generation + step)
          options.dry_run,
    )

  -- The early return of a dry run and of a plan without changes, and the transaction otherwise.
  unfoldable pub finish_apply :
      Bool → Plan → ApplySummary → Database → CatalogResult (ApplySummary × Database)
  unfolding commit_plan changed
  finish_apply dry_run plan s db =
      if dry_run || not (changed plan)
      then ok (s, db)
      else (commit_plan plan s db >>= λ written. ok (s, written))

  unfoldable pub apply :
      Manifest → ApplyOptions → ReadPoints → Database → CatalogResult (ApplySummary × Database)
  unfolding prepare finish_apply
  apply manifest options reads db = do
    prepared ← prepare manifest options reads
    let (plan, s) = prepared
    finish_apply options.dry_run plan s db

  unfoldable pub diff :
      Manifest → Bool → ReadPoints → Database → CatalogResult (ApplySummary × Database)
  unfolding apply
  diff manifest prune reads db =
      apply manifest (record { base_revision = none; prune = prune; dry_run = true }) reads db

-- `validate_manifest`, on the state that its two queries see.
unfoldable pub validate_manifest :
    Environment → Manifest → Database → Database → CatalogResult (Unit {0})
unfolding resolve_material validate_references load_credentials load_assets keys
validate_manifest world manifest at_credentials at_assets = do
  resolved ← resolve_material world manifest
  validate_references resolved true (keys (load_credentials at_credentials))
      (keys (load_assets at_assets))
