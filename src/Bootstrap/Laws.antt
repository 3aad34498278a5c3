-- ===== src/Bootstrap/Laws.antt =====
-- Proofs about the opening of a catalog.
use hop_rs.Prelude.{
  Bool-cases, Option, Outcome-cases, Text, ap, arith, eq_iff, eq_refl, err, false, first_step, inl,
  inr, none, ok, ok-injective, refl, some, sym, text, true, ◌↔◌, ◌∙◌, ◌≡◌, ◌≢◌, ◌⊎◌,
}
use hop_rs.Errors.{unsupported_database_schema}
use hop_rs.Catalog.{Database}
use hop_rs.Bootstrap.{
  DatabaseFile, DatabaseState, empty, v0_2, preflight, is_current, baseline, schema_version,
  opened_wal, initialized, read_existing, unsupported_database_error, verify_schema, connect,
  connect_read_only,
}

current_baseline : is_current baseline.version ≡ true
unfolding is_current baseline schema_version
current_baseline = eq_refl (text "hop/v0.2")

-- A file that the preflight takes for a catalog of this version.
pub record IsCatalog (file : DatabaseFile) : Type 0 where
  pub filled : file.is_blank ≡ false
  pub tables : file.has_tables ≡ true
  pub marker : file.has_marker ≡ true
  pub current : is_current file.version ≡ true

preflight-IsCatalog :
    (path : Text) (file : DatabaseFile) → IsCatalog file → preflight path (some file) ≡ ok v0_2
unfolding preflight
preflight-IsCatalog path file h = ground arith

-- A catalog of this version is opened, and only its journal mode changes.
pub connect-IsCatalog :
    (path : Text) (file : DatabaseFile)
    → IsCatalog file
    → (connect path (some file) ≡ (ok file.catalog, some (record file { journal_wal = true })))
      × (connect_read_only path (some file) ≡ ok file.catalog)
unfolding connect connect_read_only opened_wal initialized verify_schema read_existing
connect-IsCatalog path file h =
    let seen = preflight-IsCatalog path file h in
    let current = h.current in
    (rw (connect, seen, current) refl, rw (connect_read_only, seen, current) refl)

preflight-v0_2 :
    (path : Text) (file : DatabaseFile) → preflight path (some file) ≡ ok v0_2 → IsCatalog file
unfolding preflight unsupported_database_error
preflight-v0_2 path file h = ground arith

initialized-IsCatalog :
    (path : Text) (file : Option DatabaseFile) (state : DatabaseState)
    → preflight path file ≡ ok state
    → IsCatalog (initialized state (opened_wal file))
      × ((initialized state (opened_wal file)).journal_wal ≡ true)
unfolding initialized opened_wal baseline preflight
initialized-IsCatalog path none empty h =
    (record { filled = refl; tables = refl; marker = refl; current = current_baseline }, refl)
initialized-IsCatalog path (some file) empty h =
    (record { filled = refl; tables = refl; marker = refl; current = current_baseline }, refl)
initialized-IsCatalog path none v0_2 h = cc
initialized-IsCatalog path (some file) v0_2 h =
    let seen = preflight-v0_2 path file h in
    (
      record {
        filled = seen.filled;
        tables = seen.tables;
        marker = seen.marker;
        current = seen.current;
      },
      refl,
    )

-- What a start has opened is a catalog of this version, which the file holds in WAL mode.
pub connect-opened :
    (path : Text) (file after : Option DatabaseFile) (db : Database)
    → connect path file ≡ (ok db, after)
    → (opened : DatabaseFile) × (after ≡ some opened)
      × IsCatalog opened
      × (opened.journal_wal ≡ true)
      × (db ≡ opened.catalog)
unfolding connect
connect-opened path file after db h = elim (Outcome-cases (preflight path file)) [
  | inr (e, failed) ↦ let refused = rw (connect, failed) at h in cc
  | inl (state, looked) ↦
      let opened = initialized state (opened_wal file) in
      let (catalog, wal) = initialized-IsCatalog path file state looked in
      let answered = rw (connect, looked) at h in
      let (_, _, read) = first_step (verify_schema path opened) _ (ap (λ r. r.0) answered) in
      (opened, sym (ap (λ r. r.1) answered), catalog, wal, sym (ok-injective read))
]

-- What a start opens, the next start opens, read-only or not, and leaves as it is.
pub connect-connect :
    (path : Text) (file after : Option DatabaseFile) (db : Database)
    → connect path file ≡ (ok db, after)
    → (connect path after ≡ (ok db, after)) × (connect_read_only path after ≡ ok db)
connect-connect path file after db h =
    let (opened, left, catalog, wal, rows) = connect-opened path file after db h in
    let (again, reads) = connect-IsCatalog path opened catalog in
    rw (left, rows)
      (
        again ∙ ap (λ b. (ok opened.catalog, some (record opened { journal_wal = b }))) (sym wal),
        reads,
      )

-- A file without a table, or none at all.
abbrev pub IsBlank : Option DatabaseFile → Type 0
IsBlank none = Unit
IsBlank (some file) = (file.is_blank ≡ true) ⊎ (file.has_tables ≡ false)

-- A file with the marker of Hop and the version of this program.
abbrev pub IsHop : DatabaseFile → Type 0
IsHop file =
    (file.is_blank ≡ false)
    × (file.has_tables ≡ true)
    × (file.has_marker ≡ true)
    × (file.version ≡ some (text "hop/v0.2"))

-- A file with tables, but without the marker or of another version.
abbrev pub IsForeign : DatabaseFile → Type 0
IsForeign file =
    (file.is_blank ≡ false)
    × (file.has_tables ≡ true)
    × ((file.has_marker ≡ false) ⊎ (file.version ≢ some (text "hop/v0.2")))

is_current_iff :
    (version : Option Text) → (is_current version ≡ true) ↔ (version ≡ some (text "hop/v0.2"))
unfolding is_current schema_version
is_current_iff none = (λ h. cc, λ h. cc)
is_current_iff (some version) =
    let same = eq_iff version (text "hop/v0.2") in
    (λ h. ap some (same.0 h), λ h. ground (arith, same))

connect-blank :
    (path : Text) (file : Option DatabaseFile)
    → preflight path file ≡ ok empty
    → connect path file ≡ (ok baseline.catalog, some (record baseline { journal_wal = true }))
unfolding connect preflight initialized opened_wal verify_schema
connect-blank path none h = rw (connect, current_baseline) refl
connect-blank path (some file) h = rw (connect, h, current_baseline) refl

preflight-IsForeign :
    (path : Text) (file : DatabaseFile)
    → IsForeign file
    → preflight path (some file) ≡ err (unsupported_database_schema path)
unfolding preflight unsupported_database_error
preflight-IsForeign path file (filled, tables, inl unmarked) = rw (filled, tables, unmarked) refl
preflight-IsForeign path file (filled, tables, inr other) =
    let outdated : is_current file.version ≡ false = elim (Bool-cases (is_current file.version)) [
      | inl current ↦ elim (other ((is_current_iff file.version).0 current)) [ ]
      | inr o ↦ o
    ] in
    ground arith

connect-IsForeign :
    (path : Text) (file : DatabaseFile)
    → IsForeign file
    → connect path (some file) ≡ (err (unsupported_database_schema path), some file)
unfolding connect
connect-IsForeign path file h =
    let refused = preflight-IsForeign path file h in rw (connect, refused) refl

-- Every file meets one of three ends. A catalog of this version is opened, and only its journal mode
-- changes. A file without a table, or none, becomes the baseline. Any other file is refused as
-- unsupported, and is as it was, its journal mode included.
pub connect_keeps :
    (path : Text) (file : Option DatabaseFile)
    → ((f : DatabaseFile) × (file ≡ some f)
        × IsHop f
        × (connect path file ≡ (ok f.catalog, some (record f { journal_wal = true }))))
      ⊎ (IsBlank file
          × (connect path file
              ≡ (ok baseline.catalog, some (record baseline { journal_wal = true }))))
      ⊎ ((f : DatabaseFile) × (file ≡ some f)
          × IsForeign f
          × (connect path file ≡ (err (unsupported_database_schema path), some f)))
unfolding preflight
connect_keeps path none = inr (inl (tt, connect-blank path none refl))
connect_keeps path (some file) = elim (Bool-cases file.is_blank) [
  | inl blank ↦ inr (inl (inl blank, connect-blank path (some file) (rw (preflight, blank) refl)))
  | inr filled ↦ elim (Bool-cases file.has_tables) [
    | inr bare ↦
        inr (inl (inr bare, connect-blank path (some file) (rw (preflight, filled, bare) refl)))
    | inl tables ↦ elim (Bool-cases file.has_marker) [
      | inr unmarked ↦
          let foreign : IsForeign file = (filled, tables, inl unmarked) in
          inr (inr (file, refl, foreign, connect-IsForeign path file foreign))
      | inl marked ↦ elim (Bool-cases (is_current file.version)) [
        | inl current ↦
            let hop : IsCatalog file = record {
              filled = filled;
              tables = tables;
              marker = marked;
              current = current;
            } in
            inl (
              file,
              refl,
              (filled, tables, marked, (is_current_iff file.version).0 current),
              (connect-IsCatalog path file hop).0,
            )
        | inr outdated ↦
            let foreign : IsForeign file = (
              filled,
              tables,
              inr (λ same. let current = (is_current_iff file.version).1 same in cc),
            ) in
            inr (inr (file, refl, foreign, connect-IsForeign path file foreign))
      ]
    ]
  ]
]
