-- ===== src/PManager/Charges.antt =====
-- What the allocations of `get` (pmanager/adv_manager.cpp) do to the scores of the table.
use mathlib.Core.Option
use mathlib.Core.Option.{some-injective}
use blobseer.PManager.Table.{Entry, Index}
use blobseer.PManager.{provider_discrete, bump}
use blobseer.Structures.{Provider}
use blobseer.Prelude.{
  ◌<◌, ◌≡◌, refl, sym, ap, ◌∙◌, subst, inl, inr, ite, if_pos, if_neg, Option, none, some, List, [],
  ◌∷◌, ◌++◌, All, All-append, Any, arith,
}

-- The entry of the provider `i` after the allocations of the list.
unfoldable pub charge : Provider → List Provider → Entry → Entry
charge i [] e = e
charge i (p ∷ ps) e = charge i ps (ite (provider_discrete i p) (bump e) e)

charge-append :
    (i p : Provider) (ps : List Provider) (e : Entry)
    → charge i (ps ++ p ∷ []) e ≡ ite (provider_discrete i p) (bump (charge i ps e)) (charge i ps e)
unfolding charge
charge-append i p [] e = refl
charge-append i p (q ∷ ps) e = charge-append i p ps (ite (provider_discrete i q) (bump e) e)

pub charge-free :
    (i : Provider) (ps : List Provider) (e : Entry) → (charge i ps e).info.free ≡ e.info.free
unfolding charge
charge-free i [] e = refl
charge-free i (p ∷ ps) e = charge-free i ps (ite (provider_discrete i p) (bump e) e) ∙ ground arith

origin :
    (f : Entry → Entry) (o : Option Entry) (e : Entry)
    → some e ≡ Option.map f o
    → (e₀ : Entry) × (o ≡ some e₀) × (f e₀ ≡ e)
origin f none e h = absurd (cc)
origin f (some e₀) e h = (e₀, refl, cc)

pub uncharged : (i : Provider) (o : Option Entry) → o ≡ Option.map (charge i []) o
unfolding charge
uncharged i none = refl
uncharged i (some e) = refl

charge_same :
    (i : Provider) (e : Entry) (taken : List Provider) (o : Option Entry)
    → i ≡ e.id
    → some e ≡ Option.map (charge i taken) o
    → some (bump e) ≡ Option.map (charge i (taken ++ e.id ∷ [])) o
charge_same i e taken none p h = absurd (cc)
charge_same i e taken (some e₀) p h =
    let same : e ≡ charge i taken e₀ = some-injective e (charge i taken e₀) h in
    ap (λ y. some (bump y)) same
    ∙ sym (ap some (charge-append i e.id taken e₀ ∙ if_pos (provider_discrete i e.id) p _ _))

charge_other :
    (i p : Provider) (taken : List Provider) (o : Option Entry)
    → ¬ (i ≡ p)
    → Option.map (charge i taken) o ≡ Option.map (charge i (taken ++ p ∷ [])) o
charge_other i p taken none n = refl
charge_other i p taken (some e₀) n =
    sym (ap some (charge-append i p taken e₀ ∙ if_neg (provider_discrete i p) n _ _))

module _ (x : Index provider_discrete) (t₀ : x.Table) where
  -- The provider is in the table and has free space.
  abbrev pub HasSpace : Provider → Type 0
  HasSpace p = (e : Entry) × (x.find p t₀ ≡ some e) × (0 < e.info.free)

  -- The table after the allocations of the list: their scores are raised, one for each time that
  -- the provider is in the list, and nothing else has changed.
  pub record Allocated (t : x.Table) (taken : List Provider) : Type 0 where
    pub inv : x.Inv t
    pub charged : (i : Provider) → x.find i t ≡ Option.map (charge i taken) (x.find i t₀)
    pub spaces : All HasSpace taken

  pub Any-find :
      (t : x.Table) (e : Entry) (es : List Entry)
      → All (λ (y : Entry). x.find y.id t ≡ some y) es
      → Any (λ (y : Entry). y ≡ e) es
      → x.find e.id t ≡ some e
  Any-find t e [] h a = absurd a
  Any-find t e (y ∷ es) h (inl p) = subst (λ (z : Entry). x.find z.id t ≡ some z) p h.0
  Any-find t e (y ∷ es) h (inr a) = Any-find t e es h.1 a

  pub take_Allocated :
      (t : x.Table) (taken : List Provider) (e : Entry)
      → Allocated t taken
      → x.find e.id t ≡ some e
      → 0 < e.info.free
      → Allocated (x.replace (bump e) t) (taken ++ e.id ∷ [])
  take_Allocated t taken e a there space =
      let (v, found) = x.find-replace (bump e) e t a.inv there in
      record {
        inv = v;
        charged = λ i. found i ∙ elim (provider_discrete i e.id) [
          | yes p ↦
              if_pos (provider_discrete i e.id) p _ _
              ∙ charge_same i e taken (x.find i t₀) p
                  (sym (ap (λ j. x.find j t) p ∙ there) ∙ a.charged i)
          | no n ↦
              if_neg (provider_discrete i e.id) n _ _
              ∙ a.charged i
              ∙ charge_other i e.id taken (x.find i t₀) n
        ];
        spaces = All-append HasSpace taken (e.id ∷ []) a.spaces (
          let (e₀, f, c) =
                origin (charge e.id taken) (x.find e.id t₀) e (sym there ∙ a.charged e.id) in
              (e₀, f, omega (arith, charge-free e.id taken e₀, ap (λ (y : Entry). y.info.free) c)),
          tt,
        );
      }
