-- ===== src/VManager/Grow.antt =====
-- The loop of `get_ticket` that grows the tree (vmanager/vmanagement.cpp): what it gives where it
-- ends, when it ends, and that the fuel of the model decides that.
use native.Mathlib.Nat.{pow-succ', mul_assoc}
use blobseer.VManager.{grow, grow_fuel}
use blobseer.Prelude.{
  ℕ, zero, suc, ◌-◌, ◌*◌, ◌/◌, ◌%◌, ◌^◌, ◌+◌, ◌≤◌, ◌<◌, ◌≡◌, refl, sym, ap, ◌∙◌, inl, inr, none,
  some, arith, u64, ltb, Bool-cases, ltb→lt,
}

-- The loop ends with a size that holds the need, and never shrinks the tree.
pub grow-le : (f need size r : ℕ) → grow f need size ≡ some r → (need ≤ r) × (size ≤ r)
unfolding grow
grow-le zero need size r h = ground arith
grow-le (suc f) need size r h = ground (arith, grow-le f need ((2 * size) % u64) r)

-- The result is the size, doubled some number of times: no shift has lost a bit.
abbrev pub Doubled : ℕ → ℕ → ℕ → Type 0
Doubled need size r = (k : ℕ) × (r ≡ size * 2 ^ k) × (need ≤ r)

double_step : (need size : ℕ) → size < need → need ≤ 2 ^ 63 → (2 * size) % u64 ≡ size * 2
double_step need size lt le = omega arith

pub grow-Doubled :
    (f need size : ℕ)
    → need ≤ 2 ^ 63
    → need ≤ size * 2 ^ f
    → (r : ℕ) × (grow (suc f) need size ≡ some r) × Doubled need size r
unfolding grow
grow-Doubled zero need size le h = (size, ground arith, (0, omega arith, omega arith))
grow-Doubled (suc f) need size le h = elim (Bool-cases (ltb size need)) [
  | inl more ↦
      let step = double_step need size (ltb→lt size need more) le in
      let (r, runs, d) =
        grow-Doubled f need (size * 2) le (rw (mul_assoc size 2 (2 ^ f), ← pow-succ' 2 f) h) in
      (
        r,
        rw (more, step) runs,
        (
          suc d.0,
          d.1 ∙ mul_assoc size 2 (2 ^ d.0) ∙ ap (λ t. size * t) (sym (pow-succ' 2 d.0)),
          d.2,
        ),
      )
  | inr done ↦ (size, rw done, (0, omega arith, ground arith))
]

-- On a tree of size 0 the loop never ends.
pub grow_zero : (f need : ℕ) → 0 < need → grow f need 0 ≡ none
unfolding grow
grow_zero zero need h = refl
grow_zero (suc f) need h = ground (arith, grow_zero f need h)

-- `k` shifts leave no bit of the word.
abbrev Vanishes : ℕ → ℕ → Type 0
Vanishes k s = (c : ℕ) × (s * 2 ^ k ≡ c * u64)

shift-Vanishes : (k s : ℕ) → Vanishes (suc k) s → Vanishes k ((2 * s) % u64)
shift-Vanishes k s (c, e) =
    let wide : s * (2 * 2 ^ k) ≡ c * u64 = rw (← pow-succ' 2 k) e in
    let cut : 2 * s ≡ (2 * s) / u64 * u64 + (2 * s) % u64 = omega arith in
    (c - (2 * s) / u64 * 2 ^ k, omega (arith, wide, ap (λ (t : ℕ). t * 2 ^ k) cut))

grow-later :
    (k need s : ℕ)
    → s < u64
    → 0 < need
    → Vanishes k s
    → grow (suc k) need s ≡ none
    → (f : ℕ) → grow f need s ≡ none
unfolding grow
grow-later zero need s lt pos (c, z) e f =
    let eq : s ≡ 0 = omega (arith, z) in rw eq (grow_zero f need pos)
grow-later (suc k) need s lt pos z e zero = refl
grow-later (suc k) need s lt pos z e (suc f) = elim (Bool-cases (ltb s need)) [
  | inl more ↦
      rw more (
        grow-later k need ((2 * s) % u64) (omega arith) pos (shift-Vanishes k s z) (rw more at e) f)
  | inr done ↦ absurd (ground arith)
]

need_pos : (need size : ℕ) → grow grow_fuel need size ≡ none → 0 < need
unfolding grow
need_pos zero size e = absurd (ground arith)
need_pos (suc n) size e = omega arith

-- The fuel decides: where 65 rounds do not end the loop, no number of rounds does.
pub grow-diverges :
    (need size : ℕ)
    → size < u64
    → grow grow_fuel need size ≡ none
    → (f : ℕ) → grow f need size ≡ none
grow-diverges need size lt e f =
    grow-later 64 need size lt (need_pos need size e) (size, omega arith) e f
