-- ===== src/Manifest/Laws/Closed.antt =====
-- Proofs about `validate_references` of manifest.rs.
use hop_rs.Prelude.{
  All, List, Option, Option-cases, Text, [], arith, false, first_step, inl, inr, is_some, none, ok,
  refl, some, true, ℕ, ◌+◌, ◌∷◌, ◌≡◌,
}
use hop_rs.Prelude.Map.{Map, lookup, contains, contains-insert_name}
use hop_rs.Manifest.{
  PresentAsset, PresentAccess, Resolved, absent_resource, present_resource, ResolvedManifest,
}
use hop_rs.Manifest.References.{
  present_names, is_declared_absent, reference_known, check_asset, check_assets, check_allowlist,
  check_access, check_all_access, validate_references,
}

-- The map finds the name, as a resource that is present.
abbrev pub IsPresent : {A : Type 0} → Map (Resolved A) → Text → Type 0
IsPresent {A} m name = (a : A) × (lookup name m ≡ some (present_resource a))

lookup-present_names :
    {A : Type 0} (m : Map (Resolved A)) (name : Text)
    → contains name (present_names m) ≡ true
    → is_some (lookup name m) ≡ true
unfolding present_names lookup contains
lookup-present_names [] name h = cc
lookup-present_names ((n, absent_resource) ∷ m) name h = ground (arith, lookup-present_names m name)
lookup-present_names ((n, present_resource a) ∷ m) name h =
    ground (arith, lookup-present_names m name, contains-insert_name n name (present_names m))

IsPresent-of_some :
    {A : Type 0} (m : Map (Resolved A)) (name : Text) (o : Option (Resolved A))
    → lookup name m ≡ o
    → is_some o ≡ true
    → is_declared_absent o ≡ false
    → IsPresent m name
unfolding is_declared_absent
IsPresent-of_some m name none e s d = cc
IsPresent-of_some m name (some absent_resource) e s d = cc
IsPresent-of_some m name (some (present_resource a)) e s d = (a, e)

-- Without the names of a database, a known reference is one that is present.
known-IsPresent :
    {A : Type 0} (m : Map (Resolved A)) (name : Text)
    → reference_known m false [] name ≡ true
    → IsPresent m name
unfolding reference_known
known-IsPresent m name h =
    let in_names : contains name (present_names m) ≡ true = ground arith in
    let kept : is_declared_absent (lookup name m) ≡ false = ground arith in
    IsPresent-of_some m name (lookup name m) refl (lookup-present_names m name in_names) kept

-- What the references of one resource ask for.
abbrev pub CredentialPresent : ResolvedManifest → Option Text → Type 0
CredentialPresent m none = Unit
CredentialPresent m (some c) = IsPresent m.credentials c

abbrev pub AllowlistPresent : ResolvedManifest → Option (List Text) → Type 0
AllowlistPresent m none = Unit
AllowlistPresent m (some names) = All (IsPresent m.assets) names

abbrev pub AssetClosed : ResolvedManifest → Resolved PresentAsset → Type 0
AssetClosed m absent_resource = Unit
AssetClosed m (present_resource a) = CredentialPresent m a.credential

abbrev pub AccessClosed : ResolvedManifest → Resolved PresentAccess → Type 0
AccessClosed m absent_resource = Unit
AccessClosed m (present_resource k) = AllowlistPresent m k.assets

module _ (m : ResolvedManifest) where
  check_asset-closed :
      (name : Text) (r : Resolved PresentAsset)
      → check_asset m false [] [] name r ≡ ok tt
      → AssetClosed m r
  unfolding check_asset
  check_asset-closed name absent_resource h = tt
  check_asset-closed name (present_resource a) h = elim (Option-cases a.credential) [
    | inl e ↦ rw e tt
    | inr (c, e) ↦ rw e (known-IsPresent m.credentials c (ground arith))
  ]

  check_assets-closed :
      (rows : Map (Resolved PresentAsset))
      → check_assets m false [] [] rows ≡ ok tt
      → All (λ e. AssetClosed m e.1) rows
  unfolding check_assets
  check_assets-closed [] h = tt
  check_assets-closed ((name, r) ∷ rows) h =
      let (_, one, rest) = first_step (check_asset m false [] [] name r) _ h in
      (check_asset-closed name r one, check_assets-closed rows rest)

  check_allowlist-closed :
      (name : Text) (index : ℕ) (names : List Text)
      → check_allowlist m false [] [] name index names ≡ ok tt
      → All (IsPresent m.assets) names
  unfolding check_allowlist
  check_allowlist-closed name index [] h = tt
  check_allowlist-closed name index (a ∷ names) h = (
    known-IsPresent m.assets a (ground arith),
    check_allowlist-closed name (index + 1) names (ground arith),
  )

  check_access-closed :
      (name : Text) (r : Resolved PresentAccess)
      → check_access m false [] [] name r ≡ ok tt
      → AccessClosed m r
  unfolding check_access
  check_access-closed name absent_resource h = tt
  check_access-closed name (present_resource k) h = elim (Option-cases k.assets) [
    | inl e ↦ rw e tt
    | inr (names, e) ↦ rw e (check_allowlist-closed name 0 names (ground arith))
  ]

  check_all_access-closed :
      (rows : Map (Resolved PresentAccess))
      → check_all_access m false [] [] rows ≡ ok tt
      → All (λ e. AccessClosed m e.1) rows
  unfolding check_all_access
  check_all_access-closed [] h = tt
  check_all_access-closed ((name, r) ∷ rows) h =
      let (_, one, rest) = first_step (check_access m false [] [] name r) _ h in
      (check_access-closed name r one, check_all_access-closed rows rest)

  -- Where the offline check passes, the credential of every asset that is present is declared
  -- present, and so is every asset on the allowlist of every access key that is present.
  pub validate_references-closed :
      validate_references m false [] [] ≡ ok tt
      → All (λ e. AssetClosed m e.1) m.assets × All (λ e. AccessClosed m e.1) m.access
  unfolding validate_references
  validate_references-closed h =
      let (_, one, rest) = first_step (check_assets m false [] [] m.assets) _ h in
      (check_assets-closed m.assets one, check_all_access-closed m.access rest)
