-- ===== src/Command/Laws/Starts.antt =====
-- A start of the service.
use hop_rs.Prelude.{
  Option, Option-cases, Outcome-cases, Text, ap, arith, err, false, first_step, inl, inr, length,
  none, ok, ok-injective, ok-pair, refl, some, sym, trim, true, ◌↔◌, ◌∙◌, ◌≡◌,
}
use hop_rs.Errors.{Result, core_error, any_core}
use hop_rs.Catalog.{Database}
use hop_rs.Bootstrap.{DatabaseFile, connect}
use hop_rs.Runtime.Sessions.{prune_finished_sessions}
use hop_rs.Bootstrap.Laws.{connect-opened, connect-IsCatalog}
use hop_rs.Envelope.{MasterKey, SecretFile, key_len, load_or_create_master_key}
use hop_rs.Envelope.RoundTrip.{CodecLaw, load-load_or_create_master_key}
use hop_rs.Apply.Hashes.{Digests, as_bytes}
use hop_rs.Startup.{HopConfig, secret_is_empty}
use hop_rs.Api.{ControlApiState, new_control_api_state}
use hop_rs.Command.{Disk, Machine, CommandResult}
use hop_rs.Command.Start.{
  Started, stored, database_path, master_key_path, open_catalog, existing_master_key,
  open_catalog_read_only, api_token, start_api, start_service, serve, check_addresses,
  apply_startup_resources,
}

-- A token that is not blank is one that the management interface takes.
new-made :
    (digests : Digests) (key : MasterKey) (token : Text)
    → secret_is_empty token ≡ false
    → (api : ControlApiState) × (new_control_api_state digests key token ≡ ok api)
unfolding new_control_api_state secret_is_empty
new-made digests key token h = (
  record { master_key = key; token_hash = digests.sha256 (as_bytes (trim token)) },
  rw (new_control_api_state, h) refl,
)

module _ (m : Machine) (config : HopConfig) where
  -- The configuration asks for the management interface, with this token.
  abbrev pub Serves : Text → Type 0
  Serves token =
      (config.api.enabled ≡ true)
      × (config.api.token ≡ some token)
      × (secret_is_empty token ≡ false)

  api_token-some : (token : Text) → Serves token → api_token m config ≡ some token
  unfolding api_token
  api_token-some token (on, set, filled) = rw (api_token, on, set, filled) refl

  api_token-Serves : (token : Text) → api_token m config ≡ some token → Serves token
  unfolding api_token
  api_token-Serves token h = ground arith

  -- The interface that a start makes.
  start_api-some :
      (key : MasterKey) (token : Text)
      → api_token m config ≡ some token
      → (api : ControlApiState) × (new_control_api_state m.call.digests key token ≡ ok api)
        × (start_api m config key ≡ ok (some api))
  unfolding start_api
  start_api-some key token h =
      let (on, set, filled) = api_token-Serves token h in
      let (api, made) = new-made m.call.digests key token filled in
      (api, made, rw (start_api, h, made) refl)

  start_api-none : (key : MasterKey) → api_token m config ≡ none → start_api m config key ≡ ok none
  unfolding start_api
  start_api-none key h = rw (start_api, h) refl

  -- The interface, the key and the rows of a start that succeeds.
  started_service :
      (db after : Database) (key : MasterKey) (started : Started)
      → start_service m config db key ≡ (ok started, after)
      → (start_api m config key ≡ ok started.api)
        × (started.master_key ≡ key)
        × (started.catalog ≡ after)
  unfolding start_service
  started_service db after key started h =
      elim (Outcome-cases (any_core (check_addresses m config))) [
        | inr (e, failed) ↦ let refused = rw (start_service, failed) at h in cc
        | inl (_, checked) ↦
            let pruned =
              (prune_finished_sessions m.cutoff config.runtime.session_retention_days db).1 in
            elim (Outcome-cases (apply_startup_resources m config key pruned)) [
              | inr (e, failed) ↦ let refused = rw (start_service, checked, failed) at h in cc
              | inl ((summary, applied), done) ↦
                  let answered = rw (start_service, checked, done) at h in
                  let (api, made, h1) =
                    first_step (start_api m config key) _ (ap (λ r. r.0) answered) in
                  let same = ok-injective h1 in
                  (
                    made ∙ ap (λ s. ok s.api) same,
                    sym (ap (λ s. s.master_key) same),
                    sym (ap (λ s. s.catalog) same) ∙ ap (λ r. r.1) answered,
                  )
            ]
      ]

  -- What a start that succeeds has opened and left.
  serve-opened :
      (disk after : Disk) (started : Started)
      → serve m config disk ≡ (ok started, after)
      → (db : Database) × (key : MasterKey) × (left : Disk) × (open_catalog m config disk
          ≡ (ok (db, key), left))
        × (start_service m config db key ≡ (ok started, started.catalog))
        × (stored started.catalog left ≡ after)
  unfolding serve
  serve-opened disk after started h = go (open_catalog m config disk) refl h
    where
      go :
          (r : CommandResult (Database × MasterKey) × Disk)
          → open_catalog m config disk ≡ r
          → ◌≡◌ {A = CommandResult Started × Disk}
              (let (opened, left) = r in
                elim opened [
                  | err e ↦ (err e, left)
                  | ok (db, key) ↦
                      let (s, rows) = start_service m config db key in (s, stored rows left)
                ])
              (ok started, after)
          → (db : Database) × (key : MasterKey) × (left : Disk) × (open_catalog m config disk
              ≡ (ok (db, key), left))
            × (start_service m config db key ≡ (ok started, started.catalog))
            × (stored started.catalog left ≡ after)
      go (err e, left) opened run = cc
      go (ok (db, key), left) opened run =
          let service = start_service m config db key in
          let runs : service ≡ (ok started, service.1) = λ i. (ap (λ r. r.0) run i, service.1) in
          let (_, _, rows) = started_service db service.1 key started runs in
          (
            db,
            key,
            left,
            opened,
            runs ∙ ap (λ d. (ok started, d)) (sym rows),
            ap (λ d. stored d left) rows ∙ ap (λ r. r.1) run,
          )

  served :
      (disk after : Disk) (started : Started)
      → serve m config disk ≡ (ok started, after)
      → start_api m config started.master_key ≡ ok started.api
  served disk after started h =
      let (db, key, left, opened, runs, leaves) = serve-opened disk after started h in
      let (made, same_key, _) = started_service db started.catalog key started runs in
      rw same_key made

  -- A start that succeeds serves the management interface exactly when the configuration enables
  -- it with a token that is not blank, and then with the state that is made of this token.
  pub serve-api_iff :
      (disk after : Disk) (started : Started) (token : Text)
      → serve m config disk ≡ (ok started, after)
      → Serves token ↔ (
          (api : ControlApiState) × (started.api ≡ some api)
          × (config.api.token ≡ some token)
          × (new_control_api_state m.call.digests started.master_key token ≡ ok api))
  serve-api_iff disk after started token h =
      let ran = served disk after started h in
      (
        λ asked.
            let (api, made, answered) =
              start_api-some started.master_key token (api_token-some token asked) in
            let (on, set, filled) = asked in (api, ok-injective (sym ran ∙ answered), set, made),
        λ serving. asks started ran serving,
      )
    where
      asks :
          (s : Started)
          → start_api m config s.master_key ≡ ok s.api
          → (api : ControlApiState) × (s.api ≡ some api)
            × (config.api.token ≡ some token)
            × (new_control_api_state m.call.digests s.master_key token ≡ ok api)
          → Serves token
      asks s ran (api, has, set, made) = elim (Option-cases (api_token m config)) [
        | inl nothing ↦
            let idle = start_api-none s.master_key nothing in
            let none_some : ◌≡◌ {A = Option ControlApiState} none (some api) =
              ok-injective (sym idle ∙ ran) ∙ has in
            cc
        | inr (t, something) ↦
            let (on, set_t, filled) = api_token-Serves t something in
            let same : t ≡ token = cc in rw (← same) (on, set_t, filled)
      ]

  -- The files that an open catalog stands on.
  open_catalog-files :
      (disk left : Disk) (db : Database) (key : MasterKey)
      → open_catalog m config disk ≡ (ok (db, key), left)
      → (file : Option DatabaseFile) × (secret : SecretFile) × (connect
            (database_path m config)
            disk.database
          ≡ (ok db, file))
        × (load_or_create_master_key m.call.ciphers m.fresh_key
              (master_key_path m config)
              disk.secret
            ≡ ok (key, secret))
        × (left ≡ record { database = file; secret = some secret })
  unfolding open_catalog
  open_catalog-files disk left db key h =
      go (connect (database_path m config) disk.database) refl
        (load_or_create_master_key m.call.ciphers m.fresh_key (master_key_path m config)
          disk.secret)
        refl h
    where
      go :
          (r : Result Database × Option DatabaseFile)
          → connect (database_path m config) disk.database ≡ r
          → (k : Result (MasterKey × SecretFile))
          → load_or_create_master_key m.call.ciphers m.fresh_key
              (master_key_path m config)
              disk.secret
            ≡ k
          → ◌≡◌ {A = CommandResult (Database × MasterKey) × Disk}
              (let (connected, file) = r in
                let opened = record disk { database = file } in
                elim connected [
                  | err e ↦ (err (core_error e), opened)
                  | ok rows ↦ elim k [
                    | err e ↦ (err (core_error e), opened)
                    | ok (found, secret) ↦
                        (ok (rows, found), record opened { secret = some secret })
                  ]
                ])
              (ok (db, key), left)
          → (file : Option DatabaseFile) × (secret : SecretFile) × (connect
                (database_path m config)
                disk.database
              ≡ (ok db, file))
            × (load_or_create_master_key m.call.ciphers m.fresh_key
                  (master_key_path m config)
                  disk.secret
                ≡ ok (key, secret))
            × (left ≡ record { database = file; secret = some secret })
      go (err e, file) connected k loaded run = cc
      go (ok rows, file) connected (err e) loaded run = cc
      go (ok rows, file) connected (ok (found, secret)) loaded run =
          let (same_db, same_key) = ok-pair (ap (λ r. r.0) run) in
          (
            file,
            secret,
            connected ∙ ap (λ d. (ok d, file)) same_db,
            loaded ∙ ap (λ d. ok (d, secret)) same_key,
            sym (ap (λ r. r.1) run),
          )

  -- What a start that succeeds leaves on the disk is opened again, for reading, to the same catalog
  -- and the same key. The key that is drawn has 32 bytes, and its base64 decodes and has no white
  -- space.
  pub serve-open_catalog_read_only :
      (disk after : Disk) (started : Started)
      → CodecLaw m.call.ciphers
      → trim (m.call.ciphers.encode m.fresh_key) ≡ m.call.ciphers.encode m.fresh_key
      → length m.fresh_key ≡ key_len
      → serve m config disk ≡ (ok started, after)
      → open_catalog_read_only m config after ≡ ok (started.catalog, started.master_key)
  unfolding open_catalog_read_only existing_master_key any_core stored
  serve-open_catalog_read_only disk after started codec trimmed size h =
      let (db, key, left, opened, runs, leaves) = serve-opened disk after started h in
      let (_, same_key, _) = started_service db started.catalog key started runs in
      let (file, secret, connected, loaded, left_files) =
        open_catalog-files disk left db key opened in
      let (opened_file, found_file, catalog, _, _) =
        connect-opened (database_path m config) disk.database file db connected in
      let written = record opened_file { catalog = started.catalog } in
      let (_, reads) = connect-IsCatalog (database_path m config) written (record {
        filled = catalog.filled;
        tables = catalog.tables;
        marker = catalog.marker;
        current = catalog.current;
      }) in
      let (reloads, _) =
        load-load_or_create_master_key m.call.ciphers m.fresh_key (master_key_path m config)
          disk.secret key secret codec trimmed size loaded in
      rw (← leaves, left_files, found_file, reads, reloads, same_key) refl
