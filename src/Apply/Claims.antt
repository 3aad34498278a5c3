-- ===== src/Apply/Claims.antt =====
-- Proofs about `classify_present` of apply.rs.
use hop_rs.Prelude.{Option, Text, arith, eq_iff, none, ok, some, true, ◌↔◌, ◌≡◌}
use hop_rs.Apply.{
  ApplyAction, unchanged, ExistingResource, is_text, is_declarative, ensure_owned, classify_present,
}

pub is_text_iff : (o : Option Text) (t : Text) → (is_text o t ≡ true) ↔ (o ≡ some t)
unfolding is_text
is_text_iff none t = ground arith
is_text_iff (some s) t = ground (arith, eq_iff s t)

-- A resource that is there is taken only if the source already owns it. It keeps its id, and it is
-- unchanged exactly when the hash is that of the last apply and the resource is not orphaned.
pub classify_present-existing :
    (fresh source_id hash path id : Text) (e : ExistingResource) (action : ApplyAction)
    → classify_present fresh (some e) source_id hash path ≡ ok (id, action)
    → (is_declarative e.management_mode ≡ true)
      × (e.source_id ≡ some source_id)
      × (id ≡ e.id)
      × ((action ≡ unchanged) ↔ ((e.last_applied_hash ≡ some hash) × (e.orphaned_at ≡ none)))
unfolding classify_present ensure_owned
classify_present-existing fresh source_id hash path id e action h =
    let owner = is_text_iff e.source_id source_id in
    let same = is_text_iff e.last_applied_hash hash in
    (ground arith, ground (arith, owner), ground arith, ground (arith, same))
