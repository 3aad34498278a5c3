-- ===== src/Ssh/Tofu.antt =====
-- `verify_or_learn` of ssh/tofu.rs, over the known hosts of runtime.rs.
use hop_rs.Prelude.{
  Bool, List, Option, Option-cases, Text, [], any, ap, arith, eq_iff, eq_refl, err, false, find,
  if◌then◌else◌, inl, inr, keep, leb, none, not, ok, ok-pair, refl, some, sym, true, update_where,
  ◌&&◌, ◌==◌, ◌>>=◌, ◌∙◌, ◌∷◌, ◌≡◌,
}
use hop_rs.Prelude.Int.{ℤ, pos, negsuc, int_eq, int_eq_iff}
use hop_rs.Errors.{database, constraint_failed, Result}
use hop_rs.Models.{KnownHost, NewKnownHost}
use hop_rs.Catalog.{Database}

-- WHERE hostname = ?1 AND port = ?2 AND key_type = ?3
unfoldable pub is_host : Text → ℤ → Text → KnownHost → Bool
is_host hostname port key_type h =
    h.hostname == hostname && int_eq h.port port && h.key_type == key_type

unfoldable pub get_known_host : Text → ℤ → Text → Database → Option KnownHost
unfolding is_host
get_known_host hostname port key_type db = find (is_host hostname port key_type) db.known_hosts

-- `port INTEGER NOT NULL CHECK (port BETWEEN 1 AND 65535)`
unfoldable pub host_port_check : ℤ → Bool
host_port_check (pos p) = leb 1 p && leb p 65535
host_port_check (negsuc n) = false

-- INSERT … ON CONFLICT(hostname, port, key_type) DO UPDATE SET fingerprint = excluded.fingerprint
unfoldable pub upsert_known_host : Text → NewKnownHost → Database → Result Database
unfolding is_host host_port_check
upsert_known_host now host db =
    let same = is_host host.hostname host.port host.key_type in
    let row : KnownHost = record {
      hostname = host.hostname;
      port = host.port;
      key_type = host.key_type;
      fingerprint = host.fingerprint;
      first_seen = some now;
    } in
    if not (host_port_check host.port)
    then err (database constraint_failed)
    else if any same db.known_hosts
    then ok (record db {
      known_hosts =
          update_where same (λ h. record h { fingerprint = host.fingerprint }) db.known_hosts;
    })
    else ok (record db { known_hosts = row ∷ db.known_hosts })

-- `rows_affected() > 0`, and the rows that are left.
unfoldable pub delete_known_host : Text → ℤ → Text → Database → Bool × Database
unfolding is_host
delete_known_host hostname port key_type db = (
  any (is_host hostname port key_type) db.known_hosts,
  record db { known_hosts = keep (λ h. not (is_host hostname port key_type h)) db.known_hosts },
)

verify_known : Text → Option KnownHost → NewKnownHost → Database → Result (Bool × Database)
verify_known now (some existing) host db = ok (existing.fingerprint == host.fingerprint, db)
verify_known now none host db = do learned ← upsert_known_host now host db; ok (true, learned)

-- `host` holds the key's type and fingerprint, which the code computes from the offered key.
unfoldable pub verify_or_learn : Text → NewKnownHost → Database → Result (Bool × Database)
unfolding verify_known get_known_host upsert_known_host
verify_or_learn now host db =
    verify_known now (get_known_host host.hostname host.port host.key_type db) host db

-- A host key is trusted exactly when its fingerprint is the one on record, and nothing changes.
pub verify_or_learn_known :
    (now : Text) (host : NewKnownHost) (existing : KnownHost) (db : Database)
    → get_known_host host.hostname host.port host.key_type db ≡ some existing
    → verify_or_learn now host db ≡ ok (existing.fingerprint == host.fingerprint, db)
unfolding verify_or_learn
verify_or_learn_known now host existing db h = ap (λ o. verify_known now o host db) h

any-of-find-none {ℓ} :
    {A : Type ℓ} (p : A → Bool) (xs : List A) → find p xs ≡ none → any p xs ≡ false
any-of-find-none p [] h = refl
any-of-find-none p (x ∷ xs) h = ground (arith, any-of-find-none p xs)

-- The first contact writes the key in front of the known hosts.
learned_row :
    (now : Text) (host : NewKnownHost) (db db' : Database)
    → get_known_host host.hostname host.port host.key_type db ≡ none
    → verify_or_learn now host db ≡ ok (true, db')
    → (row : KnownHost) × (db'.known_hosts ≡ row ∷ db.known_hosts)
      × (is_host host.hostname host.port host.key_type row ≡ true)
      × (row.fingerprint ≡ host.fingerprint)
unfolding verify_or_learn
learned_row now host db db' unknown h = (
  record {
    hostname = host.hostname;
    port = host.port;
    key_type = host.key_type;
    fingerprint = host.fingerprint;
    first_seen = some now;
  },
  ground (
    arith,
    any-of-find-none (is_host host.hostname host.port host.key_type) db.known_hosts unknown,
  ),
  ground (
    arith,
    eq_refl host.hostname,
    (int_eq_iff host.port host.port).1 refl,
    eq_refl host.key_type,
  ),
  refl,
)

-- After the first contact the same key is trusted again, and any other key of that type for that
-- host and port is refused, both without a change.
pub verify_or_learn_pins :
    (now later : Text) (host : NewKnownHost) (fingerprint : Text) (db db' : Database)
    → get_known_host host.hostname host.port host.key_type db ≡ none
    → verify_or_learn now host db ≡ ok (true, db')
    → verify_or_learn later (record host { fingerprint = fingerprint }) db'
      ≡ ok (host.fingerprint == fingerprint, db')
verify_or_learn_pins now later host fingerprint db db' unknown h =
    let (row, rows, fits, print) = learned_row now host db db' unknown h in
    verify_or_learn_known later (record host { fingerprint = fingerprint }) row db'
      (unfold get_known_host is_host in rw rows (unfold is_host in ground arith))
    ∙ ap (λ p. ok (p == fingerprint, db')) print

-- A key that is trusted is the one that is on record afterwards.
pub verify_or_learn_trusted :
    (now : Text) (host : NewKnownHost) (db db' : Database)
    → verify_or_learn now host db ≡ ok (true, db')
    → (row : KnownHost) × (get_known_host host.hostname host.port host.key_type db' ≡ some row)
      × (row.fingerprint ≡ host.fingerprint)
verify_or_learn_trusted now host db db' h =
    elim (Option-cases (get_known_host host.hostname host.port host.key_type db)) [
      | inl unknown ↦
          let (row, rows, fits, print) = learned_row now host db db' unknown h in
          (row, unfold get_known_host is_host in rw rows (unfold is_host in ground arith), print)
      | inr (existing, known) ↦
          let (trusted, same) =
            ok-pair (sym (verify_or_learn_known now host existing db known) ∙ h) in
          (existing, rw (← same) known, (eq_iff existing.fingerprint host.fingerprint).0 trusted)
    ]
