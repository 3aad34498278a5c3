-- ===== src/Transfer/RoundTrip.antt =====
-- Proofs about the CSV writer and reader of transfer.rs.
use hop_rs.Prelude.{
  All, Bool, Bool-cases, List, Text, [], any, append-nil, append_assoc, arith, false, inl, inr,
  refl, true, ◌++◌, ◌∙◌, ◌∷◌, ◌≡◌,
}
use hop_rs.Transfer.Csv.{
  is_special, doubled, escape_csv_field, later_fields, push_csv_row, push_csv_rows, Reader,
  peeks_quote, read_char, read_loop, finish_reader, read_csv_records,
}

abbrev at : List (List Text) → List Text → Text → Bool → Reader
at records row field quoted = record {
  records = records;
  row = row;
  field = field;
  quoted = quoted;
}

module _ (records : List (List Text)) (row : List Text) where
  -- A field without special characters is read as it stands.
  read_plain :
      (f field rest : Text)
      → any is_special f ≡ false
      → read_loop false (at records row field false) (f ++ rest)
        ≡ read_loop false (at records row (field ++ f) false) rest
  unfolding read_loop is_special read_char
  read_plain [] field rest h = rw append-nil
  read_plain (c ∷ f) field rest h =
      let ih = read_plain f (field ++ (c ∷ [])) rest in
      let e = append_assoc field (c ∷ []) f in ground (arith, ih, e)

  -- Inside quotes a doubled quote is one quote, and a single one ends the quotes.
  read_doubled :
      (f field rest : Text)
      → peeks_quote rest ≡ false
      → read_loop false (at records row field true) (doubled f ++ (b'"' ∷ rest))
        ≡ read_loop false (at records row (field ++ f) false) rest
  unfolding read_loop doubled read_char peeks_quote
  read_doubled [] field rest h = rw append-nil (ground arith)
  read_doubled (c ∷ f) field rest h =
      let ih = read_doubled f (field ++ (c ∷ [])) rest h in
      let e = append_assoc field (c ∷ []) f in ground (arith, ih, e)

  read_field :
      (f rest : Text)
      → peeks_quote rest ≡ false
      → read_loop false (at records row [] false) (escape_csv_field f ++ rest)
        ≡ read_loop false (at records row f false) rest
  unfolding escape_csv_field
  read_field f rest h = elim (Bool-cases (any is_special f)) [
    | inl special ↦ rw special (
        unfold read_loop read_char in
        rw (append_assoc (doubled f) (b'"' ∷ []) rest) (read_doubled f [] rest h))
    | inr plain ↦ rw plain (read_plain f [] rest plain)
  ]

peeks_later :
    (fs : List Text) (rest : Text) → peeks_quote (later_fields fs ++ (b'\n' ∷ rest)) ≡ false
unfolding peeks_quote later_fields
peeks_later [] rest = refl
peeks_later (f ∷ fs) rest = refl

-- The rest of a row, after its first field.
read_later :
    (records : List (List Text)) (fs row : List Text) (f rest : Text)
    → read_loop false (at records row f false) (later_fields fs ++ (b'\n' ∷ rest))
      ≡ read_loop false (at (records ++ ((row ++ (f ∷ fs)) ∷ [])) [] [] false) rest
unfolding read_loop read_char later_fields
read_later records [] row f rest = refl
read_later records (g ∷ fs) row f rest =
    rw (append_assoc (escape_csv_field g) (later_fields fs) (b'\n' ∷ rest)) (
      read_field records (row ++ (f ∷ [])) g (later_fields fs ++ (b'\n' ∷ rest))
        (peeks_later fs rest)
      ∙ read_later records fs (row ++ (f ∷ [])) g rest
      ∙ rw (append_assoc row (f ∷ []) (g ∷ fs)))

-- Every row has a field.
abbrev pub HasField : List Text → Type 0
HasField [] = ⊥
HasField (f ∷ fs) = Unit

-- The text of a row with its line end.
row_text : List Text → Text
unfolding push_csv_row
row_text fs = push_csv_row [] fs

read_row :
    (records : List (List Text)) (fs : List Text) (rest : Text)
    → HasField fs
    → read_loop false (at records [] [] false) (row_text fs ++ rest)
      ≡ read_loop false (at (records ++ (fs ∷ [])) [] [] false) rest
unfolding row_text
read_row records [] rest h = absurd h
read_row records (f ∷ fs) rest h =
    rw
      (
        append_assoc (escape_csv_field f) (later_fields fs ++ (b'\n' ∷ [])) rest,
        append_assoc (later_fields fs) (b'\n' ∷ []) rest,
      )
      (read_field records [] f (later_fields fs ++ (b'\n' ∷ rest)) (peeks_later fs rest)
        ∙ read_later records fs [] f rest)

push-row_text : (out : Text) (fs : List Text) → push_csv_row out fs ≡ out ++ row_text fs
unfolding row_text
push-row_text out [] = refl
push-row_text out (f ∷ fs) = refl

push_rows-append :
    (rs : List (List Text)) (out more : Text)
    → push_csv_rows (out ++ more) rs ≡ out ++ push_csv_rows more rs
unfolding push_csv_rows
push_rows-append [] out more = refl
push_rows-append (r ∷ rs) out more =
    rw (push-row_text (out ++ more) r, push-row_text more r, append_assoc out more (row_text r))
      (push_rows-append rs out (more ++ row_text r))

read_rows :
    (rs records : List (List Text))
    → All HasField rs
    → read_loop false (at records [] [] false) (push_csv_rows [] rs)
      ≡ at (records ++ rs) [] [] false
unfolding push_csv_rows read_loop
read_rows [] records h = rw append-nil
read_rows (r ∷ rs) records (h, hs) =
    rw (push-row_text [] r, ← append-nil (row_text r), push_rows-append rs (row_text r) [])
      (read_row records r (push_csv_rows [] rs) h
        ∙ read_rows rs (records ++ (r ∷ [])) hs
        ∙ rw (append_assoc records (r ∷ []) rs))

-- What the writer made of rows with at least one field each, whatever the fields hold (commas,
-- quotes and line ends included), is read back as the same rows.
pub read-push_csv_rows :
    (rs : List (List Text)) → All HasField rs → read_csv_records (push_csv_rows [] rs) ≡ rs
unfolding read_csv_records
read-push_csv_rows rs h = rw (read_rows rs [] h) (unfold finish_reader in append-nil rs)
