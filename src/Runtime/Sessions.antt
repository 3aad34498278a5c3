-- ===== src/Runtime/Sessions.antt =====
-- The operations of runtime.rs on sessions.
use hop_rs.Prelude.{
  Bool, List, Option, Text, [], any, count, ensure, false, find, keep, none, not, ok, some, sort_by,
  suc, text, text_ltb, true, update_where, zero, ℕ, ◌==◌, ◌>>=◌, ◌∷◌,
}
use hop_rs.Prelude.Int.{ℤ}
use hop_rs.Errors.{Result, database, constraint_failed}
use hop_rs.Catalog.{Session, Database}

pub record NewSession : Type 0 where
  pub key_finger : Text
  pub key_name : Option Text
  pub mode : Text
  pub asset_name : Option Text
  pub target_host : Option Text
  pub target_port : Option ℤ
  pub client_ip : Option Text

-- The row that the INSERT makes, with the defaults of its table.
unfoldable pub session_row : Text → Text → NewSession → Session
session_row id now s = record {
  id = id;
  key_finger = s.key_finger;
  key_name = s.key_name;
  mode = s.mode;
  asset_name = s.asset_name;
  target_host = s.target_host;
  target_port = s.target_port;
  client_ip = s.client_ip;
  status = text "started";
  error = none;
  started_at = some now;
  ended_at = none;
}

-- `fresh` is what `new_id` draws.
unfoldable pub start_session : Text → Text → NewSession → Database → Result (Session × Database)
unfolding session_row
start_session fresh now s db = do
  _ ← ensure (not (any (λ r. r.id == fresh) db.sessions)) (database constraint_failed)
  ok (session_row fresh now s, record db { sessions = session_row fresh now s ∷ db.sessions })

unfoldable pub finish_session : Text → Text → Text → Option Text → Database → Database
finish_session now id status error db = record db {
  sessions =
      update_where (λ r. r.id == id)
        (λ r. record r { status = status; error = error; ended_at = some now }) db.sessions;
}

unfoldable pub get_session : Text → Database → Option Session
get_session id db = find (λ r. r.id == id) db.sessions

unfoldable pub started_later : Session → Session → Bool
started_later a b = elim a.started_at [
  | none ↦ false
  | some s ↦ elim b.started_at [ none ↦ true | some t ↦ text_ltb t s ]
]

unfoldable pub take_rows : ℕ → List Session → List Session
take_rows zero rows = []
take_rows (suc n) [] = []
take_rows (suc n) (r ∷ rows) = r ∷ take_rows n rows

-- ORDER BY started_at DESC LIMIT, for a limit that is not negative.
unfoldable pub list_sessions : ℕ → Database → List Session
unfolding started_later take_rows
list_sessions limit db = take_rows limit (sort_by started_later db.sessions)

unfoldable pub ended_before : Text → Session → Bool
ended_before cutoff r = elim r.ended_at [ none ↦ false | some t ↦ text_ltb t cutoff ]

-- `cutoff` is the time that SQLite computes for the number of days.
unfoldable pub prune_finished_sessions : (ℕ → Text) → ℕ → Database → ℕ × Database
unfolding ended_before
prune_finished_sessions cutoff zero db = (0, db)
prune_finished_sessions cutoff (suc days) db =
    let old = ended_before (cutoff (suc days)) in
    (count old db.sessions, record db { sessions = keep (λ r. not (old r)) db.sessions })
