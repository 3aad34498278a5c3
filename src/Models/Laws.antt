-- ===== src/Models/Laws.antt =====
-- The proofs about models.rs.
use hop_rs.Prelude.{
  Option, Text, arith, inl, inr, ok, refl, text, to_ascii_lowercase, trim, true, ℕ, ◌==◌, ◌↔◌, ◌≡◌,
  ◌≤◌, ◌⊎◌,
}
use hop_rs.Prelude.Int.{ℤ, pos, negsuc}
use hop_rs.Models.{
  validate_credential_material, has_secret, AssetAccessMode, all, restricted, access_mode_as_str,
  access_mode_try_from, AuthType, password, key, key_with_passphrase, auth_type_as_str,
  auth_type_try_from, validate_tcp_port, validate_asset_protocol,
}

-- The stored word of an access mode is read back as that mode.
pub access_mode_round_trip :
    (m : AssetAccessMode) → access_mode_try_from (access_mode_as_str m) ≡ ok m
unfolding access_mode_as_str access_mode_try_from text ◌==◌
access_mode_round_trip all = refl
access_mode_round_trip restricted = refl

pub auth_type_round_trip : (a : AuthType) → auth_type_try_from (auth_type_as_str a) ≡ ok a
unfolding auth_type_as_str auth_type_try_from text ◌==◌
auth_type_round_trip password = refl
auth_type_round_trip key = refl
auth_type_round_trip key_with_passphrase = refl

-- A port passes exactly when it lies between 1 and 65535, and is then returned unchanged.
pub validate_tcp_port_iff :
    (port : ℤ) (p : ℕ) → (validate_tcp_port port ≡ ok p) ↔ ((port ≡ pos p) × (1 ≤ p) × (p ≤ 65535))
unfolding validate_tcp_port
validate_tcp_port_iff (pos n) p = (λ h. ground arith, λ h. ground arith)
validate_tcp_port_iff (negsuc n) p = (λ h. cc, λ h. cc)

ssh_again : validate_asset_protocol (text "ssh") ≡ ok (text "ssh")
unfolding validate_asset_protocol text trim ◌==◌ to_ascii_lowercase
ssh_again = refl

tcp_again : validate_asset_protocol (text "tcp") ≡ ok (text "tcp")
unfolding validate_asset_protocol text trim ◌==◌ to_ascii_lowercase
tcp_again = refl

asset_protocol_cases :
    (s t : Text) → validate_asset_protocol s ≡ ok t → (t ≡ text "ssh") ⊎ (t ≡ text "tcp")
unfolding validate_asset_protocol
asset_protocol_cases s t h = ground arith

-- What passes is one of the two protocol names, and passes again unchanged.
pub validate_asset_protocol_idem :
    (s t : Text)
    → validate_asset_protocol s ≡ ok t
    → ((t ≡ text "ssh") ⊎ (t ≡ text "tcp")) × (validate_asset_protocol t ≡ ok t)
validate_asset_protocol_idem s t h = elim (asset_protocol_cases s t h) [
  | inl e ↦ (inl e, rw e ssh_again)
  | inr e ↦ (inr e, rw e tcp_again)
]

-- Credential material passes exactly when each secret that its type asks for is there and is not
-- blank.
abbrev pub Demanded : AuthType → Option Text → Option Text → Option Text → Type 0
Demanded password p k s = has_secret p ≡ true
Demanded key p k s = has_secret k ≡ true
Demanded key_with_passphrase p k s = (has_secret k ≡ true) × (has_secret s ≡ true)

pub validate_credential_material_iff :
    (a : AuthType) (p k s : Option Text)
    → (validate_credential_material a p k s ≡ ok tt) ↔ Demanded a p k s
unfolding validate_credential_material
validate_credential_material_iff password p k s = ground arith
validate_credential_material_iff key p k s = ground arith
validate_credential_material_iff key_with_passphrase p k s = ground arith
