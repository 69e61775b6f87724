-- ===== src/VManager/Order.antt =====
-- The queue of reserved writes in the order of its versions: what insertion, marking and draining
-- keep (vmanager/vmanagement.cpp, `get_ticket` and `publish`).
use mathlib.Core.List.{append-nil, append_assoc}
use blobseer.Structures.{Root}
use blobseer.VManager.Intervals.{Entry, insert_entry, mark, drain}
use blobseer.Prelude.{
  ℕ, zero, suc, ◌+◌, ◌≤◌, ◌<◌, ◌≡◌, refl, sym, ap, ◌∙◌, true, false, List, [], ◌∷◌, ◌++◌, map,
  length, get_or, length-append, All, All-append, arith, if_cases,
}

-- The entries carry the versions from `n` up to, and without, `t`.
abbrev pub Numbered : ℕ → List Entry → ℕ → Type 0
Numbered n [] t = n ≡ t
Numbered n (e ∷ es) t = (e.key.version ≡ n) × (e.root.node.version ≡ n) × Numbered (suc n) es t

-- The roots carry the versions from `n` on.
abbrev pub RootsFrom : ℕ → List Root → Type 0
RootsFrom n [] = Unit
RootsFrom n (r ∷ rs) = (r.node.version ≡ n) × RootsFrom (suc n) rs

-- The first entry is not completed.
abbrev pub Waiting : List Entry → Type 0
Waiting [] = Unit
Waiting (e ∷ es) = e.completed ≡ false

pub Numbered-le : (n t : ℕ) (es : List Entry) → Numbered n es t → n ≤ t
Numbered-le n t [] h = omega arith
Numbered-le n t (e ∷ es) h = omega (arith, Numbered-le (suc n) t es h.2)

pub insert_entry-append :
    (n t : ℕ) (e : Entry) (es : List Entry)
    → Numbered n es t
    → e.key.version ≡ t
    → insert_entry e es ≡ es ++ e ∷ []
unfolding insert_entry
insert_entry-append n t e [] h v = refl
insert_entry-append n t e (x ∷ es) h v =
    ground (arith, Numbered-le (suc n) t es h.2, insert_entry-append (suc n) t e es h.2 v)

pub append-Numbered :
    (n t : ℕ) (e : Entry) (es : List Entry)
    → Numbered n es t
    → e.key.version ≡ t
    → e.root.node.version ≡ t
    → Numbered n (es ++ e ∷ []) (suc t)
append-Numbered n t e [] h v w = (omega arith, omega arith, omega arith)
append-Numbered n t e (x ∷ es) h v w = (h.0, h.1, append-Numbered (suc n) t e es h.2 v w)

pub mark-Numbered : (n t v : ℕ) (es : List Entry) → Numbered n es t → Numbered n (mark v es) t
unfolding mark
mark-Numbered n t v [] h = h
mark-Numbered n t v (e ∷ es) h = ground (arith, mark-Numbered (suc n) t v es h.2)

pub append-RootsFrom :
    (n : ℕ) (rs : List Root) (r : Root)
    → RootsFrom n rs
    → r.node.version ≡ n + length rs
    → RootsFrom n (rs ++ r ∷ [])
append-RootsFrom n [] r h e = (omega arith, tt)
append-RootsFrom n (x ∷ rs) r h e = (h.0, append-RootsFrom (suc n) rs r h.1 (omega arith))

pub get_or-RootsFrom :
    (n i : ℕ) (rs : List Root) (d : Root)
    → RootsFrom n rs
    → i < length rs
    → (get_or rs i d).node.version ≡ n + i
get_or-RootsFrom n i [] d h lt = elim lt [ ]
get_or-RootsFrom n zero (x ∷ rs) d h lt = omega (arith, h.0)
get_or-RootsFrom n (suc i) (x ∷ rs) d h lt =
    omega (arith, get_or-RootsFrom (suc n) i rs d h.1 (omega arith))

-- What `drain` leaves of the roots `r ∷ rs` and the queue.
pub record Drained (r : Root) (t : ℕ) (p : List Root × List Entry) : Type 0 where
  pub rest : List Root
  pub kept : p.0 ≡ r ∷ rest
  pub versions : RootsFrom 1 rest
  pub queue : Numbered (suc (length rest)) p.1 t
  pub waiting : Waiting p.1

pub drain-Drained :
    (r : Root) (rs : List Root) (t : ℕ) (es : List Entry)
    → RootsFrom 1 rs
    → Numbered (suc (length rs)) es t
    → Drained r t (drain (r ∷ rs) es)
unfolding drain
drain-Drained r rs t [] h q = record {
  rest = rs;
  kept = refl;
  versions = h;
  queue = q;
  waiting = tt;
}
drain-Drained r rs t (e ∷ es) h q =
    if_cases (Drained r t) e.completed
      (λ done.
        drain-Drained r (rs ++ e.root ∷ []) t es
          (append-RootsFrom 1 rs e.root h (omega (arith, q.1)))
          (rw (length-append rs (e.root ∷ [])) (shift q.2)))
      (λ pending. record { rest = rs; kept = refl; versions = h; queue = q; waiting = pending })
  where
    shift :
        Numbered (suc (suc (length rs))) es t
        → Numbered (suc (length rs + length (e.root ∷ []))) es t
    shift h = let eq : length rs + length (e.root ∷ []) ≡ suc (length rs) = omega arith in rw eq h

-- `drain` cuts the queue after its longest completed prefix, whose roots it appends in order.
pub record Splits (roots : List Root) (es : List Entry) (p : List Root × List Entry) : Type 0 where
  pub taken : List Entry
  pub whole : es ≡ taken ++ p.1
  pub completed : All (λ (e : Entry). e.completed ≡ true) taken
  pub published : p.0 ≡ roots ++ map (λ (e : Entry). e.root) taken
  pub waiting : Waiting p.1

pub drain-All :
    (P : Root → Type 0) (Q : Entry → Type 0) (rs : List Root) (es : List Entry)
    → ((e : Entry) → Q e → P e.root)
    → All P rs
    → All Q es
    → All P (drain rs es).0 × All Q (drain rs es).1
unfolding drain
drain-All P Q rs [] f hr he = (hr, he)
drain-All P Q rs (e ∷ es) f hr he =
    if_cases (λ (p : List Root × List Entry). All P p.0 × All Q p.1) e.completed
      (λ done.
        drain-All P Q (rs ++ e.root ∷ []) es f (All-append P rs (e.root ∷ []) hr (f e he.0, tt))
          he.1)
      (λ pending. (hr, he))

pub drain-Splits : (rs : List Root) (es : List Entry) → Splits rs es (drain rs es)
unfolding drain
drain-Splits rs [] = record {
  taken = [];
  whole = refl;
  completed = tt;
  published = sym (append-nil rs);
  waiting = tt;
}
drain-Splits rs (e ∷ es) =
    if_cases (Splits rs (e ∷ es)) e.completed
      (λ done.
        let s = drain-Splits (rs ++ e.root ∷ []) es in
        record {
          taken = e ∷ s.taken;
          whole = ap (◌∷◌ e) s.whole;
          completed = (done, s.completed);
          published = s.published ∙ append_assoc rs (e.root ∷ []) (map (λ e. e.root) s.taken);
          waiting = s.waiting;
        })
      (λ pending. record {
        taken = [];
        whole = refl;
        completed = tt;
        published = sym (append-nil rs);
        waiting = pending;
      })
