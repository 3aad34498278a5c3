-- ===== src/Transfer/Csv.antt =====
-- Writing and reading CSV records: `push_csv_row`, `escape_csv_field` and `read_csv_records`.
use hop_rs.Prelude.{
  Bool, List, Text, [], any, false, if◌then◌else◌, nat_eq, not, true, ℕ, ◌&&◌, ◌++◌, ◌||◌, ◌∷◌,
}

-- `field.contains([',', '"', '\n', '\r'])`
unfoldable pub is_special : ℕ → Bool
is_special c = nat_eq c b',' || nat_eq c b'"' || nat_eq c b'\n' || nat_eq c b'\r'

-- `field.replace('"', "\"\"")`
unfoldable pub doubled : Text → Text
doubled [] = []
doubled (c ∷ s) = let rest = doubled s in if nat_eq c b'"' then b'"' ∷ b'"' ∷ rest else c ∷ rest

unfoldable pub escape_csv_field : Text → Text
unfolding is_special doubled
escape_csv_field field =
    if any is_special field then b'"' ∷ (doubled field ++ (b'"' ∷ [])) else field

-- The fields of a row: a comma stands before each but the first.
unfoldable pub later_fields : List Text → Text
later_fields [] = []
later_fields (f ∷ fs) = b',' ∷ (escape_csv_field f ++ later_fields fs)

unfoldable pub push_csv_row : Text → List Text → Text
unfolding later_fields escape_csv_field
push_csv_row output [] = output ++ (b'\n' ∷ [])
push_csv_row output (f ∷ fs) = output ++ (escape_csv_field f ++ (later_fields fs ++ (b'\n' ∷ [])))

-- The loops of `write_asset_csv` and `write_credential_csv` over the rows.
unfoldable pub push_csv_rows : Text → List (List Text) → Text
unfolding push_csv_row
push_csv_rows output [] = output
push_csv_rows output (r ∷ rs) = push_csv_rows (push_csv_row output r) rs

-- The variables of `read_csv_records`.
pub record Reader : Type 0 where
  pub records : List (List Text)
  pub row : List Text
  pub field : Text
  pub quoted : Bool

abbrev pub start_reader : Reader
start_reader = record { records = []; row = []; field = []; quoted = false }

unfoldable pub push_char : Reader → ℕ → Reader
push_char r c = record r { field = r.field ++ (c ∷ []) }

unfoldable pub end_field : Reader → Reader
end_field r = record r { row = r.row ++ (r.field ∷ []); field = [] }

unfoldable pub end_row : Reader → Reader
end_row r = record r {
  records = r.records ++ ((r.row ++ (r.field ∷ [])) ∷ []);
  row = [];
  field = [];
}

-- `'"' if quoted && chars.peek() == Some(&'"')`
unfoldable pub peeks_quote : Text → Bool
peeks_quote [] = false
peeks_quote (c ∷ s) = nat_eq c b'"'

-- A character that is not the first of a doubled quote.
unfoldable pub read_char : Reader → ℕ → Reader
unfolding push_char end_field end_row
read_char r c =
    if nat_eq c b'"'
    then record r { quoted = not r.quoted }
    else if nat_eq c b',' && not r.quoted
    then end_field r
    else if nat_eq c b'\n' && not r.quoted
    then end_row r
    else if nat_eq c b'\r' && not r.quoted
    then r
    else push_char r c

-- The `while` loop; `skip` says that the last arm consumed the quote that now stands first.
unfoldable pub read_loop : Bool → Reader → Text → Reader
unfolding peeks_quote read_char
read_loop skip r [] = r
read_loop true r (c ∷ s) = read_loop false r s
read_loop false r (c ∷ s) =
    let doubled_quote = nat_eq c b'"' && r.quoted && peeks_quote s in
    read_loop doubled_quote (if doubled_quote then push_char r b'"' else read_char r c) s

-- `if !field.is_empty() || !row.is_empty()`
last_record : Text → List Text → List (List Text)
last_record [] [] = []
last_record [] (f ∷ fs) = ((f ∷ fs) ++ ([] ∷ [])) ∷ []
last_record (c ∷ s) row = (row ++ ((c ∷ s) ∷ [])) ∷ []

unfoldable pub finish_reader : Reader → List (List Text)
unfolding last_record
finish_reader r = r.records ++ last_record r.field r.row

unfoldable pub read_csv_records : Text → List (List Text)
unfolding read_loop finish_reader
read_csv_records input = finish_reader (read_loop false start_reader input)
