-- ===== src/Manifest/Laws/Assets.antt =====
-- Proofs about `resolve_asset` of manifest.rs and the checks that it calls.
use hop_rs.Prelude.{
  Option, Text, arith, byte_len, false, is_empty, is_some, none, ok, some, text, true, ℕ, ◌&&◌,
  ◌++◌, ◌≡◌, ◌≤◌,
}
use hop_rs.Manifest.{AssetSpec, PresentAsset, present_resource, Environment}
use hop_rs.Manifest.Names.{name_chars, validate_name, required_text, optional_name}
use hop_rs.Manifest.Resolve.{positive_port, is_tcp, resolve_asset}

-- What the schema's table of assets asks of a row, and more: the host is there, and a credential
-- has a valid name.
abbrev pub NameValid : Option Text → Type 0
NameValid none = Unit
NameValid (some c) = (name_chars c ≡ true) × (byte_len c ≤ 128)

pub record IsSound (a : PresentAsset) : Type 0 where
  pub port_pos : 1 ≤ a.port
  pub host_there : is_empty a.host ≡ false
  pub tcp_plain : (is_tcp a.asset_type && is_some a.credential) ≡ false
  pub name_valid : NameValid a.credential

required_text_there :
    (o : Option Text) (path t : Text) → required_text o path ≡ ok t → is_empty t ≡ false
unfolding required_text
required_text_there none path t h = cc
required_text_there (some v) path t h = ground arith

optional_name_valid : (o r : Option Text) (path : Text) → optional_name o path ≡ ok r → NameValid r
unfolding optional_name validate_name
optional_name_valid none none path h = tt
optional_name_valid none (some c) path h = cc
optional_name_valid (some v) none path h = tt
optional_name_valid (some v) (some c) path h = ground arith

positive_port_pos : (o : Option ℕ) (p : ℕ) → positive_port o ≡ some p → 1 ≤ p
unfolding positive_port
positive_port_pos none p h = cc
positive_port_pos (some q) p h = ground arith

-- Every asset that the resolution accepts as present has a port that is not 0, a host that is not
-- blank, a credential only if it is no tcp asset, and for that credential a valid name.
pub resolve_asset-IsSound :
    (world : Environment) (spec : AssetSpec) (path : Text) (a : PresentAsset)
    → resolve_asset world spec path ≡ ok (present_resource a)
    → IsSound a
unfolding resolve_asset
resolve_asset-IsSound world spec path a h =
    let port : positive_port spec.port ≡ some a.port = ground arith in
    let host : required_text spec.host (path ++ text ".host") ≡ ok a.host = ground arith in
    let name : optional_name spec.credential (path ++ text ".credential") ≡ ok a.credential =
      ground arith in
    record {
      port_pos = positive_port_pos spec.port a.port port;
      host_there = required_text_there spec.host _ a.host host;
      tcp_plain = ground arith;
      name_valid = optional_name_valid spec.credential a.credential _ name;
    }
