-- ===== src/Prelude/Lists.antt =====
-- Lists measured and indexed by native numbers: the operations of std::vector that the code uses.
use Prim.Native.Nat.{ℕ, zero, suc, ◌+◌, ◌-◌, ◌≤◌, ◌<◌}
use mathlib.Core.Path.{◌≡◌, refl, ap}
use mathlib.Core.Logic.{◌⊎◌, ◌≢◌, inl, inr}
use mathlib.Core.List.{List, [], ◌∷◌, ◌++◌}
use native.Mathlib.Omega.{arith}

module _ {ℓ} {A : Type ℓ} where
  abbrev pub length : List A → ℕ
  length [] = 0
  length (x ∷ xs) = suc (length xs)

  -- `v[i]`, and `d` where that is out of range.
  abbrev pub get_or : List A → ℕ → A → A
  get_or [] i d = d
  get_or (x ∷ xs) zero d = x
  get_or (x ∷ xs) (suc i) d = get_or xs i d

  -- `v.back()`, and `d` on the empty vector.
  abbrev pub last_or : List A → A → A
  last_or [] d = d
  last_or (x ∷ xs) d = last_or xs x

  abbrev pub drop : ℕ → List A → List A
  drop zero xs = xs
  drop (suc n) [] = []
  drop (suc n) (x ∷ xs) = drop n xs

  abbrev pub take : ℕ → List A → List A
  take zero xs = []
  take (suc n) [] = []
  take (suc n) (x ∷ xs) = x ∷ take n xs

  -- `v.erase(v.begin() + i)`, and `v[i] = x`.
  abbrev pub erase_at : ℕ → List A → List A
  erase_at i [] = []
  erase_at zero (x ∷ xs) = xs
  erase_at (suc i) (x ∷ xs) = x ∷ erase_at i xs

  abbrev pub set_at : ℕ → A → List A → List A
  set_at i y [] = []
  set_at zero y (x ∷ xs) = y ∷ xs
  set_at (suc i) y (x ∷ xs) = x ∷ set_at i y xs

  pub length-set_at : (i : ℕ) (y : A) (xs : List A) → length (set_at i y xs) ≡ length xs
  length-set_at i y [] = refl
  length-set_at zero y (x ∷ xs) = refl
  length-set_at (suc i) y (x ∷ xs) = omega (arith, length-set_at i y xs)

  pub get_or-set_at :
      (i : ℕ) (y d : A) (xs : List A) → i < length xs → get_or (set_at i y xs) i d ≡ y
  get_or-set_at i y d [] h = elim h [ ]
  get_or-set_at zero y d (x ∷ xs) h = refl
  get_or-set_at (suc i) y d (x ∷ xs) h = get_or-set_at i y d xs (omega arith)

  pub get_or-set_at_other :
      (i j : ℕ) (y d : A) (xs : List A) → i ≢ j → get_or (set_at i y xs) j d ≡ get_or xs j d
  get_or-set_at_other i j y d [] ne = refl
  get_or-set_at_other zero zero y d (x ∷ xs) ne = absurd (ne refl)
  get_or-set_at_other zero (suc j) y d (x ∷ xs) ne = refl
  get_or-set_at_other (suc i) zero y d (x ∷ xs) ne = refl
  get_or-set_at_other (suc i) (suc j) y d (x ∷ xs) ne =
      get_or-set_at_other i j y d xs (λ e. ne (ap suc e))

  pub length-erase_at :
      (i : ℕ) (xs : List A) → i < length xs → suc (length (erase_at i xs)) ≡ length xs
  length-erase_at i [] h = elim h [ ]
  length-erase_at zero (x ∷ xs) h = refl
  length-erase_at (suc i) (x ∷ xs) h = ap suc (length-erase_at i xs (omega arith))

  pub length-take-drop :
      (i n : ℕ) (xs : List A) → i + n ≤ length xs → length (take n (drop i xs)) ≡ n
  length-take-drop zero zero xs h = refl
  length-take-drop zero (suc n) [] h = absurd (omega arith)
  length-take-drop zero (suc n) (x ∷ xs) h = omega (arith, length-take-drop zero n xs (omega arith))
  length-take-drop (suc i) zero [] h = refl
  length-take-drop (suc i) (suc n) [] h = absurd (omega arith)
  length-take-drop (suc i) n (x ∷ xs) h = length-take-drop i n xs (omega arith)

  -- The last `n` elements, or all of them.
  abbrev pub last_n : ℕ → List A → List A
  last_n n xs = drop (length xs - n) xs

  pub length-append : (xs ys : List A) → length (xs ++ ys) ≡ length xs + length ys
  length-append [] ys = omega arith
  length-append (x ∷ xs) ys = omega (arith, length-append xs ys)

  pub last_or-append : (xs : List A) (y d : A) → last_or (xs ++ y ∷ []) d ≡ y
  last_or-append [] y d = refl
  last_or-append (x ∷ xs) y d = last_or-append xs y x

  pub get_or-append_left :
      (xs ys : List A) (i : ℕ) (d : A) → i < length xs → get_or (xs ++ ys) i d ≡ get_or xs i d
  get_or-append_left [] ys i d h = elim h [ ]
  get_or-append_left (x ∷ xs) ys zero d h = refl
  get_or-append_left (x ∷ xs) ys (suc i) d h = get_or-append_left xs ys i d (omega arith)

  pub drop-append : (xs ys : List A) → drop (length xs) (xs ++ ys) ≡ ys
  drop-append [] ys = refl
  drop-append (x ∷ xs) ys = drop-append xs ys

  pub last_n-append : (xs ys : List A) → last_n (length ys) (xs ++ ys) ≡ ys
  last_n-append xs ys =
      let e : length (xs ++ ys) - length ys ≡ length xs = omega (arith, length-append xs ys) in
      rw e (drop-append xs ys)

-- A predicate of some element.
abbrev pub Any {ℓ} : {A : Type ℓ} → (A → Type 0) → List A → Type 0
Any P [] = ⊥
Any P (x ∷ xs) = P x ⊎ Any P xs

-- A predicate of every element.
abbrev pub All {ℓ κ} : {A : Type ℓ} → (A → Type κ) → List A → Type κ
All P [] = Unit
All P (x ∷ xs) = P x × All P xs

pub All-append {ℓ κ} :
    {A : Type ℓ} (P : A → Type κ) (xs ys : List A) → All P xs → All P ys → All P (xs ++ ys)
All-append P [] ys hx hy = hy
All-append P (x ∷ xs) ys hx hy = (hx.0, All-append P xs ys hx.1 hy)

pub All-split {ℓ κ} :
    {A : Type ℓ} (P : A → Type κ) (xs ys : List A) → All P (xs ++ ys) → All P xs × All P ys
All-split P [] ys h = (tt, h)
All-split P (x ∷ xs) ys h = let rest = All-split P xs ys h.1 in ((h.0, rest.0), rest.1)

pub All-map {ℓ κ} :
    {A : Type ℓ} (P Q : A → Type κ) (xs : List A) → ((x : A) → P x → Q x) → All P xs → All Q xs
All-map P Q [] f h = tt
All-map P Q (x ∷ xs) f h = (f x h.0, All-map P Q xs f h.1)

pub All-last_or {ℓ κ} :
    {A : Type ℓ} (P : A → Type κ) (xs : List A) (d : A) → P d → All P xs → P (last_or xs d)
All-last_or P [] d p h = p
All-last_or P (x ∷ xs) d p h = All-last_or P xs x h.0 h.1

pub All-get_or {ℓ κ} :
    {A : Type ℓ} (P : A → Type κ) (xs : List A) (i : ℕ) (d : A)
    → i < length xs
    → All P xs
    → P (get_or xs i d)
All-get_or P [] i d lt h = elim lt [ ]
All-get_or P (x ∷ xs) zero d lt h = h.0
All-get_or P (x ∷ xs) (suc i) d lt h = All-get_or P xs i d (omega arith) h.1

pub Any-append_left {ℓ} :
    {A : Type ℓ} (P : A → Type 0) (xs ys : List A) → Any P xs → Any P (xs ++ ys)
Any-append_left P [] ys any = absurd any
Any-append_left P (x ∷ xs) ys (inl h) = inl h
Any-append_left P (x ∷ xs) ys (inr any) = inr (Any-append_left P xs ys any)

pub Any-append_right {ℓ} :
    {A : Type ℓ} (P : A → Type 0) (xs ys : List A) → Any P ys → Any P (xs ++ ys)
Any-append_right P [] ys any = any
Any-append_right P (x ∷ xs) ys any = inr (Any-append_right P xs ys any)
