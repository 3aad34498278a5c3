-- ===== src/Startup/Laws.antt =====
-- Proofs about `validate`, `resolve_paths` and the CORS check of config.rs.
use hop_rs.Prelude.{
  Bool, List, Option, Text, [], ap, arith, false, first_step, is_some, none, ok, option_map, refl,
  some, true, ◌∷◌, ◌≡◌,
}
use hop_rs.Prelude.Map.{map_values, Map}
use hop_rs.Errors.{Result}
use hop_rs.Manifest.{password, ssh_key, CredentialSpec, AccessSpec, Environment}
use hop_rs.Startup.{
  StartupCredentialConfig, StartupAccessKeyConfig, HopConfig, startup_manifest, startup_credential,
  startup_access, startup_public_key,
}
use hop_rs.Startup.Validate.{
  Parsers, check_credential, check_startup_asset, check_access_key, check_entries, ssh_bind_addr,
  check_api, check_settings, validate, resolve_path, resolve_key_file, resolve_paths,
}

-- The secrets are those of the type, and no others.
abbrev pub HasItsSecret : CredentialSpec → Type 0
HasItsSecret c = elim c.credential_type [
  | none ↦ is_some c.credential_type ≡ true
  | some password ↦
      (is_some c.password ≡ true) × (is_some c.private_key ≡ false) × (is_some c.passphrase ≡ false)
  | some ssh_key ↦ (is_some c.password ≡ false) × (is_some c.private_key ≡ true)
]

abbrev pub HasKeySource : AccessSpec → Type 0
HasKeySource k = is_some k.public_key ≡ true

checked_secrets :
    (name u : Text) (p k s : Option Text)
    → let c : StartupCredentialConfig = record {
      username = u;
      password = p;
      private_key = k;
      passphrase = s;
    } in
      check_credential name c ≡ ok tt → HasItsSecret (startup_credential c)
unfolding check_credential startup_credential
checked_secrets name u (some p) (some k) s h = cc
checked_secrets name u none none s h = cc
checked_secrets name u (some p) none (some s) h = cc
checked_secrets name u (some p) none none h = (refl, refl, refl)
checked_secrets name u none (some k) s h = (refl, refl)

check_credential-HasItsSecret :
    (name : Text) (c : StartupCredentialConfig)
    → check_credential name c ≡ ok tt
    → HasItsSecret (startup_credential c)
check_credential-HasItsSecret name c h =
    checked_secrets name c.username c.password c.private_key c.passphrase h

checked_key :
    (name : Text) (value path : Option Text) (enabled : Option Bool) (names : Option (List Text))
    → let k : StartupAccessKeyConfig = record {
      public_key = value;
      public_key_file = path;
      enabled = enabled;
      assets = names;
    } in
      check_access_key name k ≡ ok tt → HasKeySource (startup_access k)
unfolding check_access_key startup_access startup_public_key
checked_key name (some v) (some p) enabled names h = cc
checked_key name none none enabled names h = cc
checked_key name (some v) none enabled names h = refl
checked_key name none (some p) enabled names h = refl

check_access_key-HasKeySource :
    (name : Text) (k : StartupAccessKeyConfig)
    → check_access_key name k ≡ ok tt
    → HasKeySource (startup_access k)
check_access_key-HasKeySource name k h =
    checked_key name k.public_key k.public_key_file k.enabled k.assets h

-- A predicate on every value of a map.
abbrev pub AllValues : {V : Type 0} → (V → Type 0) → Map V → Type 0
AllValues P [] = Unit
AllValues P ((name, v) ∷ m) = P v × AllValues P m

check_entries-AllValues :
    {V W : Type 0} (check : Text → V → Result (Unit {0})) (f : V → W) (P : W → Type 0)
    → ((name : Text) (v : V) → check name v ≡ ok tt → P (f v))
    → (m : Map V) → check_entries check m ≡ ok tt
    → AllValues P (map_values f m)
check_entries-AllValues check f P sound [] h = tt
check_entries-AllValues check f P sound ((name, v) ∷ m) h =
    let (_, first, rest) = first_step (check name v) _ h in
    (sound name v first, check_entries-AllValues check f P sound m rest)

-- The manifest of a configuration that validates is complete: every credential has the secrets
-- that its type demands and no others, and every access key has a source for its public key.
pub validate_complete :
    (parsers : Parsers) (world : Environment) (c : HopConfig)
    → validate parsers world c ≡ ok tt
    → AllValues HasItsSecret (startup_manifest c).credentials
      × AllValues HasKeySource (startup_manifest c).access
unfolding validate startup_manifest
validate_complete parsers world c h =
    let (_, _, h1) = first_step (ssh_bind_addr parsers world c) _ h in
    let (_, _, h2) = first_step (check_api parsers world c) _ h1 in
    let (_, _, h3) = first_step (check_settings parsers world c) _ h2 in
    let (_, credentials, h4) = first_step (check_entries check_credential c.credentials) _ h3 in
    let (_, _, h5) = first_step (check_entries check_startup_asset c.assets) _ h4 in
    let (_, keys, _) = first_step (check_entries check_access_key c.access_keys) _ h5 in
    (
      check_entries-AllValues check_credential startup_credential HasItsSecret
          check_credential-HasItsSecret c.credentials credentials,
      check_entries-AllValues check_access_key startup_access HasKeySource
          check_access_key-HasKeySource c.access_keys keys,
    )

resolve_path_idem :
    (parsers : Parsers) (world : Environment) (base path : Text)
    → ((b p : Text) → parsers.is_absolute b ≡ true → parsers.is_absolute (parsers.join b p) ≡ true)
    → parsers.is_absolute base ≡ true
    → resolve_path parsers world base (resolve_path parsers world base path)
      ≡ resolve_path parsers world base path
unfolding resolve_path
resolve_path_idem parsers world base path joins absolute =
    let joined = joins base path absolute in ground arith

map_values-map_values :
    {V : Type 0} (f : V → V)
    → ((v : V) → f (f v) ≡ f v)
    → (m : Map V) → map_values f (map_values f m) ≡ map_values f m
map_values-map_values f idem [] = refl
map_values-map_values f idem ((name, v) ∷ m) = rw (idem v, map_values-map_values f idem m) refl

option_map_idem :
    {V : Type 0} (f : V → V) (o : Option V)
    → ((v : V) → f (f v) ≡ f v)
    → option_map f (option_map f o) ≡ option_map f o
option_map_idem f none idem = refl
option_map_idem f (some v) idem = ap some (idem v)

-- Paths are resolved once: against an absolute base directory, with a join that makes the paths
-- absolute, resolving the paths of a configuration again changes nothing.
resolve_paths_idem :
    (parsers : Parsers) (world : Environment) (base : Text) (c : HopConfig)
    → ((b p : Text) → parsers.is_absolute b ≡ true → parsers.is_absolute (parsers.join b p) ≡ true)
    → parsers.is_absolute base ≡ true
    → resolve_paths parsers world base (resolve_paths parsers world base c)
      ≡ resolve_paths parsers world base c
unfolding resolve_paths resolve_key_file
resolve_paths_idem parsers world base c joins absolute =
    let idem = λ (path : Text). resolve_path_idem parsers world base path joins absolute in
    let directory = idem c.data_dir in
    let temp = idem c.runtime.temp_dir in
    let keys =
      map_values-map_values (resolve_key_file parsers world base)
        (λ k.
          ap (λ o. record k { public_key_file = o })
            (option_map_idem (resolve_path parsers world base) k.public_key_file idem))
        c.access_keys in
    rw (directory, temp, keys) refl
