-- ===== src/Runtime/Laws/Finished.antt =====
-- The row of a session that is finished.
use hop_rs.Prelude.{
  List, Option, Text, [], arith, eq_iff, eq_refl, find, if◌then◌else◌, option_map, refl, some,
  update_where, ◌==◌, ◌∙◌, ◌∷◌, ◌≡◌,
}
use hop_rs.Catalog.{Session, Database}
use hop_rs.Runtime.Sessions.{finish_session, get_session}

-- The end of a session, in its row.
abbrev pub ended_row : Text → Text → Option Text → Session → Session
ended_row now status error row = record row { status = status; error = error; ended_at = some now }

find-finished :
    (now id other status : Text) (error : Option Text) (rows : List Session)
    → find (λ r. r.id == other) (update_where (λ r. r.id == id) (ended_row now status error) rows)
      ≡ (if id == other
          then option_map (ended_row now status error) (find (λ r. r.id == other) rows)
          else find (λ r. r.id == other) rows)
find-finished now id other status error [] = ground arith
find-finished now id other status error (r ∷ rows) = ground (
  arith,
  eq_iff id other,
  eq_iff r.id id,
  eq_iff r.id other,
  find-finished now id other status error rows,
)

-- The row of a session that is finished has the end that was given, if there is one, and the rows
-- of the other sessions stay.
pub get_session-finish_session :
    (now id other status : Text) (error : Option Text) (db : Database)
    → get_session other (finish_session now id status error db) ≡ (
        if id == other
        then option_map (ended_row now status error) (get_session other db)
        else get_session other db)
unfolding get_session finish_session
get_session-finish_session now id other status error db =
    find-finished now id other status error db.sessions

-- A session that has a row has it after it is finished, with the end that was given.
pub get-finish_session :
    (now id status : Text) (error : Option Text) (row : Session) (db : Database)
    → get_session id db ≡ some row
    → get_session id (finish_session now id status error db)
      ≡ some (record row { status = status; error = error; ended_at = some now })
get-finish_session now id status error row db h =
    get_session-finish_session now id id status error db ∙ rw (eq_refl id, h) refl
