-- ===== src/Apply/Laws/Revision.antt =====
-- Proofs about the revision that `apply` reads, checks and writes.
use hop_rs.Prelude.{
  Bool, Bool-cases, Text, ap, arith, ensure, err, false, first_step, inl, inr, nat_eq, nat_eq_iff,
  not, ok, ok-pair, some, sym, true, ℕ, ◌+◌, ◌>>=◌, ◌||◌, ◌∙◌, ◌≡◌, ◌⊎◌,
}
use hop_rs.Prelude.Int.{ℤ, pos, int_eq_nat}
use hop_rs.Errors.{Result}
use hop_rs.Manifest.{Manifest}
use hop_rs.Catalog.{AuditEvent, Database}
use hop_rs.Apply.{Plan}
use hop_rs.Apply.Build.{build_plan}
use hop_rs.Apply.Load.{load_credentials, load_assets, load_access}
use hop_rs.Manifest.Resolve.{resolve_material}
use hop_rs.Apply.Execute.{
  execute_plan, execute_rows, close_apply, record_success, insert_audit_event, database_step,
}
use hop_rs.Apply.Run.{
  ApplyOptions, ApplySummary, ReadPoints, Call, changed, summary, commit_plan, prepare,
  finish_apply, apply, conflict, check_base, validate_source_id, one_if,
}

finish_apply-cases :
    (call : Call) (dry_run : Bool) (plan : Plan) (s t : ApplySummary) (db after : Database)
    → finish_apply call dry_run plan s db ≡ ok (t, after)
    → (t ≡ s)
      × ((((dry_run || not (changed plan)) ≡ true) × (after ≡ db))
          ⊎ ((changed plan ≡ true) × (commit_plan call plan s db ≡ ok after)))
unfolding finish_apply
finish_apply-cases call dry_run plan s t db after h =
    elim (Bool-cases (dry_run || not (changed plan))) [
      | inl stops ↦ (ground arith, inl (stops, ground arith))
      | inr goes ↦
          let run : (commit_plan call plan s db >>= λ written. ok (s, written)) ≡ ok (t, after) =
            ground arith in
          let (written, committed, h1) = first_step (commit_plan call plan s db) _ run in
          let (kept, same) = ok-pair h1 in (sym kept, inr (ground arith, committed ∙ ap ok same))
    ]

database_step-ok {ℓ} : {A : Type ℓ} (r : Result A) (a : A) → database_step r ≡ ok a → r ≡ ok a
unfolding database_step
database_step-ok (ok b) a h = cc
database_step-ok (err e) a h = cc

insert_audit_event-revision :
    (row : AuditEvent) (db after : Database)
    → insert_audit_event row db ≡ ok after
    → after.revision ≡ db.revision
unfolding insert_audit_event
insert_audit_event-revision row db after h = ground arith

-- The transaction ends with the revision that it was given.
execute_plan-revision :
    (call : Call) (generation revision : ℕ) (details : Text) (plan : Plan) (db after : Database)
    → execute_plan call.now call.source_id generation revision call.ciphers call.nonces call.master
        call.event_id details plan db
      ≡ ok after
    → after.revision ≡ revision
unfolding execute_plan close_apply record_success
execute_plan-revision call generation revision details plan db after h =
    let (written, _, h1) =
      first_step
        (execute_rows call.now call.source_id generation call.ciphers call.nonces call.master plan
          db)
        _ h in
    insert_audit_event-revision _ _ after (database_step-ok _ after h1)

commit_plan-revision :
    (call : Call) (plan : Plan) (s : ApplySummary) (db after : Database)
    → commit_plan call plan s db ≡ ok after
    → (db.revision ≡ s.base_revision) × (after.revision ≡ s.new_revision)
unfolding commit_plan
commit_plan-revision call plan s db after h =
    let (_, locked, h1) =
      first_step
        (ensure (nat_eq db.revision s.base_revision) (conflict (pos s.base_revision) db.revision)) _
        h in
    (
      ground (arith, nat_eq_iff db.revision s.base_revision),
      execute_plan-revision call _ _ _ plan db after h1,
    )

prepare-revisions :
    (call : Call) (manifest : Manifest) (options : ApplyOptions) (reads : ReadPoints) (plan : Plan)
    (s : ApplySummary)
    → prepare call manifest options reads ≡ ok (plan, s)
    → (s.base_revision ≡ reads.at_revision.revision)
      × (s.new_revision ≡ s.base_revision + one_if (changed plan))
unfolding prepare summary
prepare-revisions call manifest options reads plan s h =
    let (_, _, h1) = first_step (validate_source_id call.source_id) _ h in
    let (_, _, h2) =
      first_step (check_base options.base_revision reads.at_revision.revision) _ h1 in
    let (resolved, _, h3) = first_step (resolve_material call.world manifest) _ h2 in
    let (built, _, h4) =
      first_step
        (build_plan call.fresh call.digests call.master call.source_id
          (load_credentials reads.at_credentials) (load_assets reads.at_assets)
          (load_access reads.at_access) resolved options.prune)
        _ h3 in
    let (same_plan, same_summary) = ok-pair h4 in
    (
      ap (λ t. t.base_revision) (sym same_summary),
      ap (λ t. t.new_revision) (sym same_summary)
          ∙ ap (λ b. b + one_if (changed built)) (ap (λ t. t.base_revision) same_summary)
          ∙ ap (λ q. s.base_revision + one_if (changed q)) same_plan,
    )

-- A dry run leaves the catalog as it is.
pub apply-dry_run :
    (call : Call) (manifest : Manifest) (options : ApplyOptions) (reads : ReadPoints)
    (db after : Database) (s : ApplySummary)
    → options.dry_run ≡ true
    → apply call manifest options reads db ≡ ok (s, after)
    → after ≡ db
unfolding apply finish_apply
apply-dry_run call manifest options reads db after s dry h =
    let (prepared, planned, h1) = first_step (prepare call manifest options reads) _ h in
    ground arith

-- A successful apply reports the revision that it read. Either it leaves the catalog as it is, or
-- it found that same revision under the lock of its transaction, and the revision afterwards is
-- larger by one and is the one that it reports.
pub apply-revision :
    (call : Call) (manifest : Manifest) (options : ApplyOptions) (reads : ReadPoints)
    (db after : Database) (s : ApplySummary)
    → apply call manifest options reads db ≡ ok (s, after)
    → (s.base_revision ≡ reads.at_revision.revision)
      × ((after ≡ db)
          ⊎ ((db.revision ≡ s.base_revision)
              × (after.revision ≡ db.revision + 1)
              × (s.new_revision ≡ after.revision)))
unfolding apply
apply-revision call manifest options reads db after s h =
    let (prepared, planned, h1) = first_step (prepare call manifest options reads) _ h in
    let (plan, t) = prepared in
    let (same, cases) = finish_apply-cases call options.dry_run plan t s db after h1 in
    let (read, next) = prepare-revisions call manifest options reads plan t planned in
    (
      ap (λ u. u.base_revision) same ∙ read,
      elim cases [
        | inl (_, kept) ↦ inl kept
        | inr (changes, committed) ↦
            let (locked, written) = commit_plan-revision call plan t db after committed in
            let base = ap (λ u. u.base_revision) same in
            let new = ap (λ u. u.new_revision) same in
            inr (locked ∙ sym base, ground arith, new ∙ sym written)
      ],
    )

-- Where the revision that was read is not the one that the caller demands, the apply is refused
-- with a revision conflict that names both, whatever the manifest says.
pub apply-stale :
    (call : Call) (manifest : Manifest) (options : ApplyOptions) (reads : ReadPoints)
    (db : Database) (expected : ℤ)
    → validate_source_id call.source_id ≡ ok tt
    → options.base_revision ≡ some expected
    → int_eq_nat expected reads.at_revision.revision ≡ false
    → apply call manifest options reads db ≡ err (conflict expected reads.at_revision.revision)
unfolding apply prepare check_base
apply-stale call manifest options reads db expected valid demanded stale =
    ground (arith, valid, demanded, stale)
