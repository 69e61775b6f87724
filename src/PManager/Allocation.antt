-- ===== src/PManager/Allocation.antt =====
-- What `get` of pmanager/adv_manager.cpp allocates: which providers, in which groups, and what that
-- does to the scores.
use mathlib.Core.List.{append_assoc, append-nil}
use blobseer.Cache.Keys.{has, Once, Once-append}
use blobseer.PManager.Charges.{Allocated, Any-find, take_Allocated, uncharged}
use blobseer.PManager.Choice.{pick_sound}
use blobseer.PManager.Table.{Index}
use blobseer.PManager.{provider_discrete, is_in, pick, bump, allocate, group, groups, get_fuel}
use blobseer.Structures.{Provider}
use blobseer.Prelude.{
  ℕ, zero, suc, ◌+◌, ◌-◌, ◌*◌, ◌≤◌, ◌<◌, ◌≡◌, refl, sym, ap, ◌∙◌, subst, ◌⊎◌, inl, inr, Bool, true,
  false, none, some, List, [], ◌∷◌, ◌++◌, length, last_n, last_n-append, length-append,
  Option-cases, Bool-cases, arith, ltb,
}

is_in-has : (p : Provider) (l : List Provider) → is_in p l ≡ has provider_discrete p l
unfolding has
is_in-has p [] = refl
is_in-has p (q ∷ l) = ground (arith, is_in-has p l)

module _ (x : Index provider_discrete) (t₀ : x.Table) where
  -- What a group of replicas adds to the list: different providers, as many as are asked for if the
  -- last one was found.
  pub record Grouped (before : List Provider) (limit : ℕ) (r : Bool × x.Table × List Provider)
      : Type 0 where
    pub members : List Provider
    pub list : r.2 ≡ before ++ members
    pub once : Once provider_discrete members
    pub allocated : Allocated x t₀ r.1 r.2
    pub full : r.0 ≡ true → length members ≡ limit
    pub short : r.0 ≡ false → (length members < limit) × (pick members (x.by_info r.1) ≡ none)

  group-Grouped :
      (n i : ℕ) (t : x.Table) (before g : List Provider)
      → length g ≡ i
      → Once provider_discrete g
      → Allocated x t₀ t (before ++ g)
      → Grouped before (i + n) (group x n i t (before ++ g))
  unfolding group allocate
  group-Grouped zero i t before g e o a = record {
    members = g;
    list = refl;
    once = o;
    allocated = a;
    full = λ h. omega (arith, e);
    short = λ h. absurd (cc);
  }
  group-Grouped (suc n) i t before g e o a =
      let recent : last_n i (before ++ g) ≡ g = rw (← e) (last_n-append before g) in
      elim (Option-cases (pick (last_n i (before ++ g)) (x.by_info t))) [
        | inl none_left ↦
            rw (none_left, group)
              (record {
                members = g;
                list = refl;
                once = o;
                allocated = a;
                full = λ h. absurd (cc);
                short = λ h. (omega (arith, e), rw recent at none_left);
              })
        | inr (y, found) ↦
            let (listed, space, new) = pick_sound (last_n i (before ++ g)) (x.by_info t) y found in
            let there = Any-find x t₀ t y (x.by_info t) (x.by_info-find t a.inv) listed in
            let absent : has provider_discrete y.id g ≡ false =
              sym (is_in-has y.id g) ∙ rw recent at new in
            let count : i + suc n ≡ suc i + n = omega arith in
            rw (found, group, append_assoc before g (y.id ∷ []), count)
              (group-Grouped n (suc i) (x.replace (bump y) t) before (g ++ y.id ∷ [])
                (omega (arith, length-append g (y.id ∷ []), e))
                (Once-append provider_discrete y.id g absent o)
                (rw (append_assoc before g (y.id ∷ [])) at
                  (take_Allocated x t₀ t (before ++ g) y a there space)))
      ]

-- `k` groups of `n` providers each, different ones within a group.
abbrev pub Full : ℕ → ℕ → List Provider → Type 0
Full n zero l = l ≡ []
Full n (suc k) l =
    (front : List Provider) × (g : List Provider) × (l ≡ front ++ g)
    × Full n k front
    × Once provider_discrete g
    × (length g ≡ n)

Full-length : (n k : ℕ) (l : List Provider) → Full n k l → length l ≡ k * n
Full-length n zero l h = ap length h ∙ omega arith
Full-length n (suc k) l (front, g, e, f, o, s) =
    omega (arith, ap length e, length-append front g, Full-length n k front f, s)

module _ (x : Index provider_discrete) (t₀ : x.Table) where
  -- The list that the loops leave: full groups, and at most one group that is not full, where the
  -- providers ran out.
  pub record Allocation (wanted rounds : ℕ) (t : x.Table) (taken : List Provider) : Type 0 where
    pub groups_no : ℕ
    pub front : List Provider
    pub last : List Provider
    pub list : taken ≡ front ++ last
    pub full : Full rounds groups_no front
    pub once : Once provider_discrete last
    pub short : length last < rounds
    pub allocated : Allocated x t₀ t taken
    pub stopped : (wanted ≤ length taken) ⊎ (pick last (x.by_info t) ≡ none)

  group_start :
      (rounds : ℕ) (t : x.Table) (taken : List Provider)
      → Allocated x t₀ t taken
      → Grouped x t₀ taken rounds (group x rounds 0 t taken)
  group_start rounds t taken a =
      let whole : taken ++ [] ≡ taken = append-nil taken in
      let count : 0 + rounds ≡ rounds = omega arith in
      subst (λ l. Grouped x t₀ taken rounds (group x rounds 0 t l)) whole
        (subst (λ n. Grouped x t₀ taken n (group x rounds 0 t (taken ++ []))) count
          (group-Grouped x t₀ rounds 0 t taken [] refl tt (subst (Allocated x t₀ t) (sym whole) a)))

  -- The outer loop ends, from any number of full groups on.
  groups_ends :
      (fuel wanted rounds k : ℕ) (t : x.Table) (taken : List Provider)
      → 0 < rounds
      → wanted - length taken < fuel
      → Full rounds k taken
      → Allocated x t₀ t taken
      → (t' : x.Table) × (taken' : List Provider) × (groups x fuel wanted rounds t taken
          ≡ some (t', taken'))
        × Allocation wanted rounds t' taken'
  unfolding groups
  groups_ends zero wanted rounds k t taken pos lt f a = absurd (omega arith)
  groups_ends (suc fuel) wanted rounds k t taken pos lt f a =
      elim (Bool-cases (ltb (length taken) wanted)) [
        | inl more ↦
            let g = group_start rounds t taken a in
            elim (Bool-cases (group x rounds 0 t taken).0) [
              | inl found ↦
                  let longer : wanted - length (group x rounds 0 t taken).2 < fuel =
                    ground (arith, ap length g.list, length-append taken g.members, g.full found) in
                  rw (more, found)
                    (groups_ends fuel wanted rounds (suc k) _ _ pos longer
                      (taken, g.members, g.list, f, g.once, g.full found) g.allocated)
              | inr over ↦ (
                (group x rounds 0 t taken).1,
                (group x rounds 0 t taken).2,
                rw (more, over) refl,
                record {
                  groups_no = k;
                  front = taken;
                  last = g.members;
                  list = g.list;
                  full = f;
                  once = g.once;
                  short = (g.short over).0;
                  allocated = g.allocated;
                  stopped = inr (g.short over).1;
                },
              )
            ]
        | inr enough ↦ (
          t,
          taken,
          rw enough refl,
          record {
            groups_no = k;
            front = taken;
            last = [];
            list = sym (append-nil taken);
            full = f;
            once = tt;
            short = pos;
            allocated = a;
            stopped = inl (ground arith);
          },
        )
      ]

-- A request for some replicas, with at least one to a page, ends: the list is made of groups, all
-- but the last full, of different providers that had free space in the table; their scores are
-- raised once for each allocation and nothing else in the table changes; and it is as long as
-- wanted, or every provider that could be taken is in the last group.
pub groups_lem :
    (x : Index provider_discrete) (t : x.Table) (wanted rounds : ℕ)
    → 0 < rounds
    → x.Inv t
    → (t' : x.Table) × (taken : List Provider) × (groups x (get_fuel x wanted) wanted rounds t []
        ≡ some (t', taken))
      × Allocation x t wanted rounds t' taken
groups_lem x t wanted rounds pos v =
    groups_ends x t (get_fuel x wanted) wanted rounds 0 t [] pos (omega arith) refl
      (record { inv = v; charged = λ i. uncharged i (x.find i t); spaces = tt })
