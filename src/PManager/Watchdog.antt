-- ===== src/PManager/Watchdog.antt =====
-- A round of the watchdog of pmanager/adv_manager.cpp.
use blobseer.PManager.Table.{Entry, Index}
use blobseer.PManager.{provider_discrete, sweep}
use blobseer.Structures.{Provider}
use blobseer.Prelude.{
  ℕ, zero, suc, ◌≤◌, ◌<◌, ◌≡◌, refl, sym, ap, ◌∙◌, subst, inl, inr, if_pos, if_neg, Option, none,
  some, List, [], ◌∷◌, length, All, All-map, Any, Option-cases, Bool-cases, arith, ltb,
  if◌then◌else◌,
}

-- The entries are in the order of their times.
abbrev pub InTime : List Entry → Type 0
InTime [] = Unit
InTime (e ∷ es) = All (λ (x : Entry). e.timestamp ≤ x.timestamp) es × InTime es

-- An entry that has reported in time.
abbrev pub fresh : ℕ → Entry → Option Entry
fresh now e = if ltb e.timestamp now then none else some e

abbrev pub keep_fresh : ℕ → Option Entry → Option Entry
keep_fresh now none = none
keep_fresh now (some e) = fresh now e

module _ (x : Index provider_discrete) (now : ℕ) where
  All-fresh :
      (n : ℕ) (es : List Entry) (e : Entry)
      → All (λ (y : Entry). n ≤ y.timestamp) es
      → Any (λ (y : Entry). y ≡ e) es
      → n ≤ e.timestamp
  All-fresh n [] e h a = absurd a
  All-fresh n (y ∷ es) e h (inl p) = subst (λ (z : Entry). n ≤ z.timestamp) p h.0
  All-fresh n (y ∷ es) e h (inr a) = All-fresh n es e h.1 a

  -- A table in which nothing is over loses nothing.
  kept :
      (t : x.Table) (e : Entry) (es : List Entry) (i : Provider)
      → x.Inv t
      → x.by_time t ≡ e ∷ es
      → InTime (e ∷ es)
      → now ≤ e.timestamp
      → x.find i t ≡ keep_fresh now (x.find i t)
  kept t e es i v b h le = elim (Option-cases (x.find i t)) [
    | inl z ↦ rw z refl
    | inr (y, f) ↦
        let later : now ≤ y.timestamp =
          All-fresh now (e ∷ es) y
            (
              le,
              All-map (λ (z : Entry). e.timestamp ≤ z.timestamp) (λ z. now ≤ z.timestamp) es
                  (λ z k. omega arith) h.0,
            )
            (subst (Any (λ (z : Entry). z ≡ y)) b (x.by_time-all t i y v f)) in
        rw f (ground arith)
  ]

  empty :
      (t : x.Table) (i : Provider)
      → x.Inv t
      → x.by_time t ≡ []
      → x.find i t ≡ keep_fresh now (x.find i t)
  empty t i v b = elim (Option-cases (x.find i t)) [
    | inl z ↦ rw z refl
    | inr (y, f) ↦ absurd (subst (Any (λ (z : Entry). z ≡ y)) b (x.by_time-all t i y v f))
  ]

  dropped :
      (t : x.Table) (e : Entry) (es : List Entry) (i : Provider)
      → x.Inv t
      → x.by_time t ≡ e ∷ es
      → e.timestamp < now
      → keep_fresh now (x.find i (x.erase e.id t)) ≡ keep_fresh now (x.find i t)
  dropped t e es i v b lt =
      let there : x.find e.id t ≡ some e =
        (subst (All (λ (y : Entry). x.find y.id t ≡ some y)) b (x.by_time-find t v)).0 in
      elim (provider_discrete i e.id) [
        | yes p ↦
            ap (keep_fresh now)
              ((x.find-erase e.id t v).1 i ∙ if_pos (provider_discrete i e.id) p _ _)
            ∙ sym (gone i p there)
        | no n ↦
            ap (keep_fresh now)
              ((x.find-erase e.id t v).1 i ∙ if_neg (provider_discrete i e.id) n _ _)
      ]
    where
      gone : (j : Provider) → j ≡ e.id → x.find e.id t ≡ some e → keep_fresh now (x.find j t) ≡ none
      gone j p there = rw (p, there) (ground arith)

  sweeps :
      (es : List Entry) (fuel : ℕ) (t : x.Table)
      → x.Inv t
      → x.by_time t ≡ es
      → InTime es
      → length es < fuel
      → (t' : x.Table) × (sweep x fuel now t ≡ some t')
        × x.Inv t'
        × ((i : Provider) → x.find i t' ≡ keep_fresh now (x.find i t))
  unfolding sweep
  sweeps es zero t v b h lt = absurd (omega arith)
  sweeps [] (suc fuel) t v b h lt = (t, rw (b, sweep) refl, v, λ i. empty t i v b)
  sweeps (e ∷ es) (suc fuel) t v b h lt = elim (Bool-cases (ltb e.timestamp now)) [
    | inl over ↦
        let (t', runs, v', found) =
          sweeps es fuel (x.erase e.id t) (x.find-erase e.id t v).0 (x.by_time-erase t e es v b) h.1
            (omega arith) in
        (t', rw (b, sweep, over) runs, v', λ i. found i ∙ dropped t e es i v b (ground arith))
    | inr live ↦ (t, rw (b, sweep, live) refl, v, λ i. kept t e es i v b h (ground arith))
  ]

  -- A round of the watchdog ends, and drops from the table exactly the providers whose time is over.
  pub sweep_lem :
      (t : x.Table)
      → x.Inv t
      → InTime (x.by_time t)
      → (t' : x.Table) × (sweep x (suc (length (x.by_time t))) now t ≡ some t')
        × x.Inv t'
        × ((i : Provider) → x.find i t' ≡ keep_fresh now (x.find i t))
  sweep_lem t v h = sweeps (x.by_time t) (suc (length (x.by_time t))) t v refl h (omega arith)
