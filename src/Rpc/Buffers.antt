-- ===== src/Rpc/Buffers.antt =====
-- The equality of buffers, `operator==` of common/buffer_wrapper.hpp.
use blobseer.Rpc.{Buffer, same_bytes}
use blobseer.Prelude.{◌≡◌, ◌↔◌, refl, subst, true, false, [], ◌∷◌, arith}

same_bytes_refl : (b : Buffer) → same_bytes b b ≡ true
unfolding same_bytes
same_bytes_refl [] = refl
same_bytes_refl (x ∷ b) = ground (arith, same_bytes_refl b)

same_bytes-eq : (a b : Buffer) → same_bytes a b ≡ true → a ≡ b
unfolding same_bytes
same_bytes-eq [] [] h = refl
same_bytes-eq [] (y ∷ b) h = absurd (cc)
same_bytes-eq (x ∷ a) [] h = absurd (cc)
same_bytes-eq (x ∷ a) (y ∷ b) h = ground (arith, same_bytes-eq a b)

-- Two buffers compare equal exactly if they have the same bytes.
pub same_bytes_iff : (a b : Buffer) → (same_bytes a b ≡ true) ↔ (a ≡ b)
same_bytes_iff a b =
    (same_bytes-eq a b, λ e. subst (λ (x : Buffer). same_bytes a x ≡ true) e (same_bytes_refl a))

unfoldable pub buffer_discrete : Discrete Buffer
buffer_discrete a b =
    (elim (same_bytes a b) as (λ t. ((t ≡ true) ↔ (a ≡ b)) → Dec (a ≡ b)) [
      | true ↦ λ h. yes (h.0 refl)
      | false ↦ λ h. no (λ p. cc (h.1 p))
    ])
      (same_bytes_iff a b)
