-- ===== src/Transfer/Laws.antt =====
-- Proofs about the import and the credential rows of transfer.rs.
use hop_rs.Prelude.{
  All, List, Option, Outcome, Outcome-cases, Text, [], ap, arith, false, first_step, inl, inr,
  length, length-append, map, none, ok, ok-injective, ok-pair, refl, some, text, true, ℕ, ◌++◌, ◌+◌,
  ◌==◌, ◌>>=◌, ◌∷◌, ◌≡◌,
}
use hop_rs.Models.{Asset, TagsJson}
use hop_rs.Catalog.{Database}
use hop_rs.Runtime.Assets.{add_asset, update_asset, get_asset_by_name}
use hop_rs.Transfer.Csv.{push_csv_row, push_csv_rows, read_csv_records}
use hop_rs.Transfer.RoundTrip.{HasField, read-push_csv_rows}
use hop_rs.Transfer.Rows.{
  TransferFormat, AssetTransferRow, imported_asset, CredentialTransferRow, credential_header,
  credential_fields, is_blank_row, same_texts, ensure_len, require_csv_header, read_records,
  credential_of_fields, write_credential_csv, read_credential_csv,
}
use hop_rs.Transfer.Import.{
  ConflictPolicy, skip, overwrite, report, ImportSummary, empty_summary, record_imported,
  record_skipped, record_overwritten, record_error, ImportError, of_store, import_loop,
  import_existing, import_asset, import_assets, import_asset_rows,
}

-- The rows that a summary speaks of.
abbrev pub accounted : ImportSummary → ℕ
accounted s = s.imported + s.skipped + s.overwritten + length s.errors

error_counts : (s : ImportSummary) (e : Text) → accounted (record_error s e) ≡ accounted s + 1
unfolding record_error
error_counts s e = let l = length-append s.errors (e ∷ []) in omega (arith, l)

abbrev AddsOne :
    (ImportSummary → Database → Outcome ImportError (ImportSummary × Database)) → Type 0
AddsOne step =
    (s next : ImportSummary) (db after : Database)
    → step s db ≡ ok (next, after)
    → accounted next ≡ accounted s + 1

module _ (codec : TagsJson) (fresh : ℕ → Text) (now : Text) (policy : ConflictPolicy) where
  import_existing-AddsOne :
      (id : Text) (row : AssetTransferRow) → AddsOne (import_existing codec fresh now policy id row)
  unfolding import_existing record_skipped record_overwritten of_store
  import_existing-AddsOne id row s next db after h = by_policy policy h
    where
      Existing : ConflictPolicy → Type 0
      Existing p = import_existing codec fresh now p id row s db ≡ ok (next, after)

      by_policy : (p : ConflictPolicy) → Existing p → accounted next ≡ accounted s + 1
      by_policy skip e = rw (← (ok-pair e).0) (omega arith)
      by_policy report e =
          rw (← (ok-pair e).0) (error_counts s (text "asset already exists: " ++ row.name))
      by_policy overwrite e =
          let (changed, _, then_ok) =
            first_step (of_store (update_asset codec id now (imported_asset row) db)) _ e in
          rw (← (ok-pair then_ok).0) (omega arith)

  import_asset-AddsOne :
      (n : ℕ) (row : AssetTransferRow) → AddsOne (import_asset codec fresh now policy n row)
  unfolding import_asset record_imported of_store
  import_asset-AddsOne n row s next db after h =
      let (found, _, chosen) = first_step (of_store (get_asset_by_name codec row.name db)) _ h in
      by_found found chosen
    where
      Found : Option Asset → Type 0
      Found found =
          ◌≡◌ {A = Outcome ImportError (ImportSummary × Database)}
            (elim found [
              | some existing ↦ import_existing codec fresh now policy existing.id row s db
              | none ↦
                  of_store (add_asset codec (fresh n) now (imported_asset row) db) >>= λ stored.
                  ok (record_imported s, stored)
            ])
            (ok (next, after))

      by_found : (found : Option Asset) → Found found → accounted next ≡ accounted s + 1
      by_found (some existing) e = import_existing-AddsOne existing.id row s next db after e
      by_found none e =
          let (stored, _, then_ok) =
            first_step (of_store (add_asset codec (fresh n) now (imported_asset row) db)) _ e in
          rw (← (ok-pair then_ok).0) (omega arith)

import_loop-counts :
    {A : Type 0}
    (step : ℕ → A → ImportSummary → Database → Outcome ImportError (ImportSummary × Database))
    (one : (n : ℕ) (row : A) → AddsOne (step n row)) (rows : List A) (n : ℕ)
    (s done : ImportSummary) (db after : Database)
    → import_loop step n rows s db ≡ (ok done, after)
    → accounted done ≡ accounted s + length rows
unfolding import_loop
import_loop-counts step one [] n s done db after h =
    rw (← ok-injective (ap (λ p. p.0) h)) (omega arith)
import_loop-counts step one (row ∷ rows) n s done db after h =
    elim (Outcome-cases (step n row s db)) [
      | inl ((next, stored), e) ↦
          let rest = import_loop-counts step one rows (n + 1) next done stored after (cc) in
          let here = one n row s next db stored e in omega (arith, rest, here)
      | inr (problem, e) ↦ cc
    ]

-- A successful import of assets has accounted for every row of its input: each is imported,
-- skipped, overwritten or reported as an error.
pub import_assets-accounted :
    (codec : TagsJson) (fresh : ℕ → Text) (now : Text) (policy : ConflictPolicy)
    (from_json : Text → Outcome Text (List AssetTransferRow)) (input : Text)
    (format : TransferFormat) (rows : List AssetTransferRow) (done : ImportSummary)
    (db after : Database)
    → import_asset_rows from_json input format ≡ ok rows
    → import_assets codec fresh now policy from_json input format db ≡ (ok done, after)
    → accounted done ≡ length rows
unfolding import_assets empty_summary
import_assets-accounted codec fresh now policy from_json input format rows done db after read h =
    let counted =
      import_loop-counts (import_asset codec fresh now policy)
        (import_asset-AddsOne codec fresh now policy) rows 0 empty_summary done db after
        (rw (import_assets, read) at h) in
    omega (arith, counted)

-- A record that the readers do not skip.
abbrev pub IsWritten : CredentialTransferRow → Type 0
IsWritten row = is_blank_row (credential_fields row) ≡ false

read_back :
    (rows : List CredentialTransferRow) (idx : ℕ)
    → All IsWritten rows
    → read_records 3 credential_of_fields idx (map credential_fields rows) ≡ ok rows
unfolding read_records credential_fields credential_of_fields ensure_len
read_back [] idx h = refl
read_back (row ∷ rows) idx (h, hs) = rw (h, read_back rows (idx + 1) hs) refl

have_fields : (rows : List CredentialTransferRow) → All HasField (map credential_fields rows)
unfolding credential_fields
have_fields [] = tt
have_fields (row ∷ rows) = (tt, have_fields rows)

table_records :
    (rows : List CredentialTransferRow)
    → read_csv_records (write_credential_csv rows) ≡ credential_header ∷ map credential_fields rows
unfolding write_credential_csv push_csv_rows push_csv_row text credential_header
table_records rows =
    read-push_csv_rows (credential_header ∷ map credential_fields rows) (tt, have_fields rows)

same_header : same_texts credential_header credential_header ≡ true
unfolding same_texts credential_header text ◌==◌
same_header = refl

-- Credential rows that are written as CSV are read back as they were, whatever their fields hold
-- (commas, quotes and line ends included), when none of the records is blank.
pub read-write_credential_csv :
    (rows : List CredentialTransferRow)
    → All IsWritten rows
    → read_credential_csv (write_credential_csv rows) ≡ ok rows
unfolding read_credential_csv
read-write_credential_csv rows h =
    rw (read_credential_csv, table_records rows, require_csv_header, same_header)
      (read_back rows 1 h)
