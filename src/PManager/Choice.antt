-- ===== src/PManager/Choice.antt =====
-- Which provider `get` of pmanager/adv_manager.cpp takes.
use mathlib.Core.Option.{some-injective}
use blobseer.PManager.Table.{Entry, lt_score}
use blobseer.PManager.{is_in, pick}
use blobseer.Structures.{Provider}
use blobseer.Prelude.{
  ◌<◌, ◌≡◌, subst, ◌⊎◌, inl, inr, true, false, none, some, List, [], ◌∷◌, All, Any, Bool-cases,
  arith, ◌==◌,
}

-- No entry ranks strictly before one that stands earlier.
abbrev Ranked : List Entry → Type 0
Ranked [] = Unit
Ranked (e ∷ es) = All (λ (x : Entry). lt_score x.info e.info ≡ false) es × Ranked es

-- An entry of a provider that is recent, or one that does not rank before `e`.
abbrev NoBetter : List Provider → Entry → Entry → Type 0
NoBetter recent e y = (is_in y.id recent ≡ true) ⊎ (lt_score y.info e.info ≡ false)

-- The provider taken is in the table, has free space and is not among the recent ones.
pub pick_sound :
    (recent : List Provider) (es : List Entry) (e : Entry)
    → pick recent es ≡ some e
    → Any (λ (y : Entry). y ≡ e) es × (0 < e.info.free) × (is_in e.id recent ≡ false)
unfolding pick
pick_sound recent [] e h = absurd (cc)
pick_sound recent (y ∷ es) e h = ground (arith, pick_sound recent es e)

irreflexive : (e : Entry) → lt_score e.info e.info ≡ false
unfolding lt_score
irreflexive e = ground arith

rest_NoBetter :
    (recent : List Provider) (e : Entry) (es : List Entry)
    → All (λ (x : Entry). lt_score x.info e.info ≡ false) es
    → All (NoBetter recent e) es
rest_NoBetter recent e [] h = tt
rest_NoBetter recent e (y ∷ es) h = (inr h.0, rest_NoBetter recent e es h.1)

-- On a walk in the order of the scores, no provider that could have been taken ranks before the one
-- that is taken.
pick_best :
    (recent : List Provider) (es : List Entry) (e : Entry)
    → Ranked es
    → pick recent es ≡ some e
    → All (NoBetter recent e) es
unfolding pick
pick_best recent [] e r h = tt
pick_best recent (y ∷ es) e r h = elim (Bool-cases (y.info.free == 0)) [
  | inl full ↦ absurd (cc (rw full at h))
  | inr space ↦ elim (Bool-cases (is_in y.id recent)) [
    | inl old ↦ (inl old, pick_best recent es e r.1 (rw (space, old) at h))
    | inr new ↦
        let same : y ≡ e = some-injective y e (rw (space, new) at h) in
        subst (λ (z : Entry). All (NoBetter recent z) (y ∷ es)) same
          (inr (irreflexive y), rest_NoBetter recent y es r.0)
  ]
]

-- Where every provider of the walk has free space, none is taken only if all are recent.
pub pick-none :
    (recent : List Provider) (es : List Entry)
    → All (λ (y : Entry). 0 < y.info.free) es
    → pick recent es ≡ none
    → All (λ (y : Entry). is_in y.id recent ≡ true) es
unfolding pick
pick-none recent [] f h = tt
pick-none recent (y ∷ es) f h = ground (arith, pick-none recent es f.1)

-- A full provider at the front of the walk hides all others.
pub pick_hidden :
    (recent : List Provider) (full : Entry) (es : List Entry)
    → full.info.free ≡ 0
    → pick recent (full ∷ es) ≡ none
unfolding pick
pick_hidden recent full es z = ground arith
