-- ===== src/Api/Laws/Auth.antt =====
-- Who the management interface lets in.
use hop_rs.Prelude.{
  Bool-cases, Option, Text, arith, eq_iff, err, inl, inr, ok, refl, sym, trim, ◌==◌, ◌↔◌, ◌∙◌, ◌≡◌,
  ◌⊎◌,
}
use hop_rs.Envelope.{MasterKey}
use hop_rs.Apply.Hashes.{Digests, as_bytes}
use hop_rs.Api.{ControlApiState, Server, Context, new_control_api_state}
use hop_rs.Api.Errors.{unauthorized}
use hop_rs.Api.Handlers.{
  authenticate, supplied_token, status_handler, revision_handler, assets_handler,
  create_asset_handler, update_asset_handler, delete_asset_handler, credentials_handler,
  create_credential_handler, update_credential_handler, delete_credential_handler,
  access_keys_handler, create_access_key_handler, delete_access_key_handler,
  set_access_key_enabled_handler, set_access_key_access_handler, sessions_handler,
  known_hosts_handler, reset_known_host_handler, terminate_session_handler,
}
use hop_rs.Api.Configuration.{validate_handler, diff_handler, apply_handler}
use hop_rs.Api.Router

module _ (c : Context) (st : ControlApiState) (h : Option Text) (s : Server) where
  abbrev IsRefused : Router.Request → Type 0
  IsRefused r = Router.handle c st r h s ≡ (err unauthorized, s)

  handle-IsRefused : (r : Router.Request) → authenticate c st h ≡ err unauthorized → IsRefused r
  unfolding Router.handle status_handler revision_handler assets_handler create_asset_handler
      update_asset_handler delete_asset_handler credentials_handler create_credential_handler
      update_credential_handler delete_credential_handler access_keys_handler
      create_access_key_handler delete_access_key_handler set_access_key_enabled_handler
      set_access_key_access_handler sessions_handler known_hosts_handler reset_known_host_handler
      terminate_session_handler validate_handler diff_handler apply_handler
  handle-IsRefused Router.get_status e = rw e refl
  handle-IsRefused _ e = rw e refl

-- The token that a server was made with has a digest, and the state holds it.
new-token_hash :
    (digests : Digests) (master : MasterKey) (token : Text) (st : ControlApiState)
    → new_control_api_state digests master token ≡ ok st
    → st.token_hash ≡ digests.sha256 (as_bytes (trim token))
unfolding new_control_api_state
new-token_hash digests master token st h = ground arith

-- On a server that was made with a token, a request is let in exactly when the digest of what its
-- Authorization header brings is that of the trimmed token. Any other request, on whatever route,
-- is answered with the error for the unauthorized, and the server is as it was.
pub handle_authenticated :
    (c : Context) (master : MasterKey) (token : Text) (st : ControlApiState) (r : Router.Request)
    (h : Option Text) (s : Server)
    → new_control_api_state c.call.digests master token ≡ ok st
    → let digest = λ (t : Text). c.call.digests.sha256 (as_bytes t) in
      ((authenticate c st h ≡ ok tt) ↔ (digest (trim token) ≡ digest (supplied_token c st h)))
      × ((digest (trim token) ≡ digest (supplied_token c st h))
          ⊎ (Router.handle c st r h s ≡ (err unauthorized, s)))
unfolding authenticate
handle_authenticated c master token st r h s made =
    let held = new-token_hash c.call.digests master token st made in
    let digest = c.call.digests.sha256 (as_bytes (supplied_token c st h)) in
    let same = eq_iff st.token_hash digest in
    (
      ground (arith, held, same),
      elim (Bool-cases (st.token_hash == digest)) [
        | inl yes_same ↦ inl (sym held ∙ same.0 yes_same)
        | inr other ↦ inr (handle-IsRefused c st h s r (rw other refl))
      ],
    )
