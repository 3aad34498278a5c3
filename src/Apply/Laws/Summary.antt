-- ===== src/Apply/Laws/Summary.antt =====
-- Proofs about `Plan::summary` and `Plan::changed` of apply.rs.
use hop_rs.Prelude.{
  Bool, List, Text, [], any, ap, arith, false, if◌then◌else◌, length, not, refl, suc, ℕ, ◌+◌, ◌↔◌,
  ◌∙◌, ◌∷◌, ◌≡◌, ◌≤◌,
}
use hop_rs.Apply.{ApplyAction, created, updated, deleted, orphaned, unchanged, ApplyChange, Plan}
use hop_rs.Apply.Build.{is_unchanged}
use hop_rs.Apply.Run.{same_action, changed, count_action, summary}

one_action :
    (a : ApplyAction) (c u d o n : ℕ)
    → (if same_action a created then suc c else c)
        + (if same_action a updated then suc u else u)
        + (if same_action a deleted then suc d else d)
        + (if same_action a orphaned then suc o else o)
        + (if same_action a unchanged then suc n else n)
      ≡ suc (c + u + d + o + n)
unfolding same_action
one_action created c u d o n = omega arith
one_action updated c u d o n = omega arith
one_action deleted c u d o n = omega arith
one_action orphaned c u d o n = omega arith
one_action unchanged c u d o n = omega arith

counts-length :
    (l : List ApplyChange)
    → count_action created l
        + count_action updated l
        + count_action deleted l
        + count_action orphaned l
        + count_action unchanged l
      ≡ length l
counts-length [] = omega arith
counts-length (c ∷ l) =
    one_action c.action (count_action created l) (count_action updated l) (count_action deleted l)
      (count_action orphaned l) (count_action unchanged l)
    ∙ ap suc (counts-length l)

is_unchanged_same : (a : ApplyAction) → is_unchanged a ≡ same_action a unchanged
unfolding is_unchanged same_action
is_unchanged_same created = refl
is_unchanged_same updated = refl
is_unchanged_same deleted = refl
is_unchanged_same orphaned = refl
is_unchanged_same unchanged = refl

unchanged-count :
    (l : List ApplyChange)
    → (any (λ c. not (is_unchanged c.action)) l ≡ false) ↔ (count_action unchanged l ≡ length l)
unchanged-count [] = ground arith
unchanged-count (c ∷ l) =
    let at_most : count_action unchanged l ≤ length l = omega (arith, counts-length l) in
    ground (arith, unchanged-count l, is_unchanged_same c.action)

-- The five numbers of a summary count every change of the plan once, and the plan counts as
-- unchanged exactly when nothing is created, updated, deleted or orphaned.
pub summary-counts :
    (plan : Plan) (source_id : Text) (base_revision new_revision generation : ℕ) (dry_run : Bool)
    → let s = summary plan source_id base_revision new_revision generation dry_run in
      (s.created + s.updated + s.deleted + s.orphaned + s.unchanged ≡ length s.changes)
      × ((changed plan ≡ false) ↔ (s.created + s.updated + s.deleted + s.orphaned ≡ 0))
unfolding summary changed
summary-counts plan source_id base_revision new_revision generation dry_run =
    let total = counts-length plan.changes in
    let stays = unchanged-count plan.changes in (total, ground (arith, total, stays))
