-- ===== src/Prelude/Texts.antt =====
-- Texts: decidable equality, and the prefix before a separator.
use Prim.Native.Nat.{ℕ}
use Prim.Native.Char.{code}
use Prim.Native.String.{String}
use text.Mathlib.Text.{◌==◌ as str_eq}
use text.Mathlib.TextEquality.{eq_iff}
use mathlib.Core.Path.{◌≡◌, refl}
use mathlib.Core.Logic.{◌↔◌}
use mathlib.Core.Bool.{true, false}
use blobseer.Prelude.Tests.{◌==◌, if◌then◌else◌}

unfoldable pub string_discrete : Discrete String
string_discrete s t =
    (elim (str_eq s t) as (λ b. ((b ≡ true) ↔ (s ≡ t)) → Dec (s ≡ t)) [
      | true ↦ λ h. yes (h.0 refl)
      | false ↦ λ h. no (λ p. cc (h.1 p))
    ])
      (eq_iff s t)

-- `s.substr(0, s.find(c))`: the whole text where the character is not in it.
unfoldable pub before : ℕ → String → String
before c String.[] = String.[]
before c (String.◌∷◌ x s) = if code x == c then String.[] else String.◌∷◌ x (before c s)
