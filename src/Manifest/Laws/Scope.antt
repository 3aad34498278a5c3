-- ===== src/Manifest/Laws/Scope.antt =====
-- Proofs about `merge_resources` of manifest.rs.
use hop_rs.Prelude.{Option, Text, [], arith, eq_iff, false, is_some, none, ok, some, ◌&&◌, ◌∷◌, ◌≡◌}
use hop_rs.Prelude.Map.{Map, lookup, insert, lookup-insert}
use hop_rs.Manifest.Merge.{merge_resources}

abbrev pub or_else {ℓ} : {A : Type ℓ} → Option A → Option A → Option A
or_else none o = o
or_else (some a) o = some a

-- No name is in both maps, and the merged map finds what either of them finds.
module _ {V : Type 0} (type : Text) where
  pub merge_resources_lem :
      (source target merged : Map V) (k : Text)
      → merge_resources target source type ≡ ok merged
      → (lookup k merged ≡ or_else (lookup k source) (lookup k target))
        × ((is_some (lookup k source) && is_some (lookup k target)) ≡ false)
  unfolding merge_resources lookup
  merge_resources_lem [] target merged k h = ground arith
  merge_resources_lem ((name, v) ∷ source) target merged k h =
      let ih = merge_resources_lem source (insert name v target) merged k in
      ground (arith, ih, lookup-insert name k v target, eq_iff name k)
