-- ===== src/Api/Laws/Created.antt =====
-- A credential that the management interface makes, from the request to the login at a target.
use hop_rs.Prelude.{
  Option, Text, ap, arith, eq_refl, err, first_step, length, none, ok, ok-injective, refl, some,
  sym, unwrap_or, ◌∙◌, ◌∷◌, ◌≡◌,
}
use hop_rs.Errors.{Result}
use hop_rs.Models.{Credential, NewCredential, validate_credential_material}
use hop_rs.Catalog.{ResourceType, credential, CredentialRecord, Database}
use hop_rs.Catalog.Statements.{insert_credential, insert_local_ownership}
use hop_rs.Envelope.{nonce_len}
use hop_rs.Envelope.RoundTrip.{CodecLaw, CipherLaw}
use hop_rs.Runtime.Credentials.{add_credential, get_credential, credential_row, bound_credential}
use hop_rs.Target.{Login, login_of}
use hop_rs.Api.{ControlApiState, Server, Context, CredentialWriteRequest}
use hop_rs.Api.Errors.{ApiResult, Action, ◌>>=◌, ◌>>◌, answer, change}
use hop_rs.Api.Laws.Secrets.{Intends, Decodes, build_credential-id, build_credential-login_of}
use hop_rs.Api.Secrets.{build_credential}
use hop_rs.Api.Handlers.{authenticate, create_credential_handler, created_credential}
use hop_rs.Api.Views.{CredentialView}

-- The step before the rest of a handler that succeeds has succeeded.
action_step :
    {A B : Type 0} (m : Action A) (next : A → Action B) (s after : Server) (b : B)
    → (m >>= next) s ≡ (ok b, after)
    → (a : A) × (between : Server) × (m s ≡ (ok a, between)) × (next a between ≡ (ok b, after))
action_step {A} {B} m next s after b h = go (m s) refl h
  where
    go :
        (r : ApiResult A × Server)
        → m s ≡ r
        → (let (x, t) = r in elim x [ ok a ↦ next a t | err e ↦ (err e, t) ]) ≡ (ok b, after)
        → (a : A) × (between : Server) × (m s ≡ (ok a, between)) × (next a between ≡ (ok b, after))
    go (ok a, t) e h = (a, t, e, h)
    go (err x, t) e h = cc

changed :
    (f : Database → Result Database) (s after : Server)
    → change f s ≡ (ok tt, after)
    → f s.catalog ≡ ok after.catalog
changed f s after h = ground arith

insert_credential-credentials :
    (row : CredentialRecord) (db db' : Database)
    → insert_credential row db ≡ ok db'
    → db'.credentials ≡ row ∷ db.credentials
unfolding insert_credential
insert_credential-credentials row db db' h = ground arith

insert_local_ownership-credentials :
    (type : ResourceType) (id : Text) (db db' : Database)
    → insert_local_ownership type id db ≡ ok db'
    → db'.credentials ≡ db.credentials
unfolding insert_local_ownership
insert_local_ownership-credentials type id db db' h = ground arith

add_credential-credentials :
    (fresh now id : Text) (c : NewCredential) (db db' : Database)
    → c.id ≡ some id
    → add_credential fresh now c db ≡ ok db'
    → db'.credentials ≡ bound_credential id now c ∷ db.credentials
unfolding add_credential
add_credential-credentials fresh now id c db db' e h =
    let (_, _, h1) =
      first_step
        (validate_credential_material c.auth_type c.password_enc c.private_key_enc c.passphrase_enc)
        _ h in
    let used = unwrap_or fresh c.id in
    let (inserted, rows, h2) =
      first_step (insert_credential (bound_credential used now c) db) _ h1 in
    let (owned, owner, h3) = first_step (insert_local_ownership credential used inserted) _ h2 in
    let same : used ≡ id = rw e refl in
    ap (λ d. d.credentials) (sym (ok-injective h3))
    ∙ insert_local_ownership-credentials credential used inserted owned owner
    ∙ insert_credential-credentials (bound_credential used now c) db inserted rows
    ∙ ap (λ i. bound_credential i now c ∷ db.credentials) same

-- The row that a new credential is read back as.
get-add_credential :
    (fresh now id : Text) (c : NewCredential) (db db' : Database)
    → c.id ≡ some id
    → add_credential fresh now c db ≡ ok db'
    → get_credential id db' ≡ some (credential_row (bound_credential id now c))
unfolding get_credential bound_credential
get-add_credential fresh now id c db db' e h =
    rw (add_credential-credentials fresh now id c db db' e h, eq_refl id) refl

created_credential-unchanged :
    (c : Context) (st : ControlApiState) (id : Text) (s after : Server)
    (r : ApiResult CredentialView)
    → created_credential c st id s ≡ (r, after)
    → s ≡ after
unfolding created_credential
created_credential-unchanged c st id s after r h = ground arith

-- A credential that the management interface creates is found under its id, and a session with it
-- logs in at the target with the user and the secrets of the request, as its type asks for, where
-- a key among them can be read.
pub create_credential-login_of :
    (c : Context) (st : ControlApiState) (request : CredentialWriteRequest) (h : Option Text)
    (s after : Server) (view : CredentialView) (login : Login)
    → CodecLaw c.call.ciphers
    → CipherLaw c.call.ciphers
    → ((at : Text) → length (c.call.nonces at) ≡ nonce_len)
    → Intends request login
    → Decodes c.call.world login
    → create_credential_handler c st request h s ≡ (ok view, after)
    → (row : Credential) × (get_credential c.new_id after.catalog ≡ some row)
      × (login_of c.call.ciphers st.master_key c.call.world row ≡ ok login)
unfolding create_credential_handler
create_credential-login_of c st request h s after view login codec cipher sizes asks usable run =
    let built = build_credential c.call.ciphers c.call.nonces st.master_key c.new_id request none in
    let show : Action CredentialView = created_credential c st c.new_id in
    let store = λ (w : NewCredential). change (add_credential c.new_id c.call.now w) >> show in
    let (_, s1, entered, r1) =
      action_step (answer (authenticate c st h)) (λ done. answer built >>= store) s after view
        run in
    let (written, s2, sealed, r2) = action_step (answer built) store s1 after view r1 in
    let (_, s3, stored, r3) =
      action_step (change (add_credential c.new_id c.call.now written)) (λ done. show) s2 after view
        r2 in
    let same = created_credential-unchanged c st c.new_id s3 after (ok view) r3 in
    let added = changed (add_credential c.new_id c.call.now written) s2 s3 stored in
    let made : built ≡ ok written = ap (λ r. r.0) sealed in
    (
      credential_row (bound_credential c.new_id c.call.now written),
      rw (← same) (
          get-add_credential c.new_id c.call.now c.new_id written s2.catalog s3.catalog
            (build_credential-id c.call.ciphers c.call.nonces st.master_key c.new_id c.call.now
              request codec cipher sizes c.call.world written made)
            added),
      build_credential-login_of c.call.ciphers c.call.nonces st.master_key c.new_id c.call.now
          request codec cipher sizes c.call.world login written asks usable made,
    )
