-- ===== src/PManager/Order.antt =====
-- The order by which pmanager/adv_manager.hpp ranks the providers.
use blobseer.PManager.Table.{Score, lt_score}
use blobseer.Prelude.{◌<◌, ◌≡◌, ◌⊎◌, ◌↔◌, true, false, arith}

-- Among providers with free space the order is by score, and for equal scores by free space, the
-- most first.
pub lt_score_iff :
    (a b : Score)
    → 0 < a.free
    → 0 < b.free
    → (lt_score a b ≡ true) ↔ ((a.score < b.score) ⊎ ((a.score ≡ b.score) × (b.free < a.free)))
unfolding lt_score
lt_score_iff a b p q = (λ h. ground arith, λ h. ground arith)

-- A full provider is not ranked against one with free space and a higher score, so that the order
-- is no strict weak order: such a full provider is equivalent to each of two providers with
-- different scores.
pub lt_score_not_weak :
    (full a b : Score)
    → full.free ≡ 0
    → 0 < a.free
    → 0 < b.free
    → full.score < a.score
    → a.score < b.score
    → (lt_score full a ≡ false)
      × (lt_score a full ≡ false)
      × (lt_score full b ≡ false)
      × (lt_score b full ≡ false)
      × (lt_score a b ≡ true)
unfolding lt_score
lt_score_not_weak full a b z p q h k =
    (ground arith, ground arith, ground arith, ground arith, ground arith)
