-- ===== src/Client/Written.antt =====
-- The pages of a write of client/object_handler.cpp: which replicas were written when the check of
-- the pages is passed.
use native.Mathlib.Nat.{mul-le-mul_right}
use blobseer.Client.Reads.{Memory}
use blobseer.Client.Copies.{bytes}
use blobseer.Client.Writes.{
  Step, wrote_replica, Pages, rpc_write_callback, write_replicas, page_key_of, write_pages,
  any_written, all_written, add_page,
}
use blobseer.Rpc.{Buffer}
use blobseer.Rpc.Status
use blobseer.Structures.{Provider, Query}
use blobseer.VManager.{Codecs}
use blobseer.Prelude.{
  Any-append_left, Any-append_right, ℕ, zero, suc, ◌+◌, ◌*◌, ◌%◌, ◌≤◌, ◌<◌, ◌≡◌, ◌↔◌, refl, sym, ap,
  subst, ◌∙◌, Bool, true, false, Option, none, some, List, [], ◌∷◌, ◌++◌, length, take, drop,
  drop-append, Any, u64, ltb, ◌==◌, inl, inr, Bool-cases, arith,
}

-- A replica counts as written exactly if one of the attempts that are made is answered `ok`: the
-- attempt `first`, or one of the `left` retries after it.
pub rpc_write_callback_iff :
    (send : ℕ → ℕ) (left first : ℕ)
    → (rpc_write_callback send left first (send first) ≡ true)
      ↔ ((n : ℕ) × (first ≤ n) × (n ≤ first + left) × (send n ≡ Status.ok))
unfolding rpc_write_callback
rpc_write_callback_iff send zero first = (
  λ h. (first, omega arith, omega arith, ground arith),
  λ (n, from, to, good).
      let same : first ≡ n = omega arith in
      let sent : send first ≡ 0 = ap send same ∙ good in ground (arith, sent),
)
rpc_write_callback_iff send (suc left) first = elim (Bool-cases (send first == 0)) [
  | inl e ↦ (λ h. (first, omega arith, omega arith, ground arith), λ h. rw e refl)
  | inr e ↦
      let (to, from) = rpc_write_callback_iff send left (suc first) in
      (
        λ h.
            let (n, low, high, good) = to (rw e at h) in
            (n, omega (arith, low), omega (arith, high), good),
        λ (n, low, high, good).
            rw e (from (n, later send first n e low good, omega (arith, high), good)),
      )
]
  where
    later :
        (send : ℕ → ℕ) (first n : ℕ)
        → (send first == 0) ≡ false
        → first ≤ n
        → send n ≡ 0
        → suc first ≤ n
    later send first n e low good = elim (Bool-cases (ltb first n)) [
      | inl lt ↦ ground arith
      | inr ge ↦
          let same : first ≡ n = ground arith in
          let sent : send first ≡ 0 = ap send same ∙ good in absurd (ground (arith, sent, e))
    ]

-- A replica of the page with this key was written.
abbrev pub IsWritten : Query → Step → Type 0
IsWritten key (wrote_replica k p true) = k ≡ key
IsWritten key _ = ⊥

module _ (net : ℕ → Provider → List Buffer → ℕ) (retry_count : ℕ) (key : Query)
    (params : List Buffer) where
  length-write_replicas :
      (ps : List Provider) → length (write_replicas net retry_count key params ps).0 ≡ length ps
  unfolding write_replicas
  length-write_replicas [] = refl
  length-write_replicas (p ∷ ps) = ap suc (length-write_replicas ps)

  -- A good result among those of a page comes from a replica that was written.
  any_written-IsWritten :
      (ps : List Provider) (rest : List Bool)
      → any_written (length ps) ((write_replicas net retry_count key params ps).0 ++ rest)
        ≡ some true
      → Any (IsWritten key) (write_replicas net retry_count key params ps).1
  unfolding any_written write_replicas
  any_written-IsWritten [] rest h = cc
  any_written-IsWritten (p ∷ ps) rest h =
      go (any_written-IsWritten ps rest)
        (rpc_write_callback (λ n. net n p params) retry_count 0 (net 0 p params)) h
    where
      go :
          (any_written (length ps) ((write_replicas net retry_count key params ps).0 ++ rest)
              ≡ some true
            → Any (IsWritten key) (write_replicas net retry_count key params ps).1)
          → (b : Bool)
          → any_written
              (suc (length ps))
              (b ∷ (write_replicas net retry_count key params ps).0 ++ rest)
            ≡ some true
          → Any
              (IsWritten key)
              (wrote_replica key p b ∷ (write_replicas net retry_count key params ps).1)
      go f true h = inl refl
      go f false h = inr (f h)

-- The check of the pages, page by page.
all_written_split :
    (f : ℕ) (l r : List Bool)
    → 0 < length l
    → all_written f (length l) (l ++ r) ≡ some true
    → (any_written (length l) (l ++ r) ≡ some true)
      × ((f' : ℕ) × (all_written f' (length l) r ≡ some true))
unfolding all_written
all_written_split zero l r pos h = cc
all_written_split (suc f) [] r pos h = elim pos [ ]
all_written_split (suc f) (b ∷ l) r pos h = go (any_written (length (b ∷ l)) (b ∷ l ++ r)) refl h
  where
    go :
        (o : Option Bool)
        → any_written (suc (length l)) (b ∷ l ++ r) ≡ o
        → elim o [
          | none ↦ none
          | some false ↦ some false
          | some true ↦ all_written f (suc (length l)) (drop (length l) (l ++ r))
        ]
          ≡ some true
        → (any_written (suc (length l)) (b ∷ l ++ r) ≡ some true)
          × ((f' : ℕ) × (all_written f' (suc (length l)) r ≡ some true))
    go none e h = cc
    go (some false) e h = cc
    go (some true) e h = (e, (f, ap (all_written f (suc (length l))) (sym (drop-append l r)) ∙ h))

length-take : {A : Type 0} (n : ℕ) (xs : List A) → n ≤ length xs → length (take n xs) ≡ n
length-take zero xs le = refl
length-take (suc n) [] le = absurd (omega arith)
length-take (suc n) (x ∷ xs) le = ap suc (length-take n xs (omega arith))

module _ (c : Codecs) (net : ℕ → Provider → List Buffer → ℕ) (retry_count : ℕ) (mem : Memory)
    (range : Query) (page_size replica_count : ℕ) where
  abbrev pub key_at : ℕ → Query
  key_at = page_key_of range.id range.version page_size

  abbrev pages_or : Pages → Option Pages → Pages
  pages_or d none = d
  pages_or d (some p) = p

  -- What the check of the pages from number `i` on says of the steps.
  abbrev pub Kept : ℕ → Option Pages → Type 0
  Kept i o =
      (p : Pages) (f j : ℕ)
      → o ≡ some p
      → all_written f replica_count p.page_results ≡ some true
      → i ≤ j
      → j * page_size < range.size
      → Any (IsWritten (key_at j)) p.steps

  joined-Kept :
      (i : ℕ) (params : List Buffer) (adv : List Provider) (rest : Pages)
      → 0 < replica_count
      → length adv ≡ replica_count
      → Kept (suc i) (some rest)
      → (f j : ℕ)
      → all_written f replica_count
          ((write_replicas net retry_count (key_at i) params adv).0 ++ rest.page_results)
        ≡ some true
      → i ≤ j
      → j * page_size < range.size
      → Any
          (IsWritten (key_at j))
          ((write_replicas net retry_count (key_at i) params adv).1 ++ rest.steps)
  joined-Kept i params adv rest pos len kept f j all le lt =
      let bits = (write_replicas net retry_count (key_at i) params adv).0 in
      let steps = (write_replicas net retry_count (key_at i) params adv).1 in
      let count : length bits ≡ replica_count =
        length-write_replicas net retry_count (key_at i) params adv ∙ len in
      let (first, (f', others)) =
        all_written_split f bits rest.page_results (omega (arith, count, pos))
          (ap (λ t. all_written f t (bits ++ rest.page_results)) count ∙ all) in
      elim (Bool-cases (ltb i j)) [
        | inl later ↦ Any-append_right (IsWritten (key_at j)) steps rest.steps (
            kept rest f' j refl (ap (λ t. all_written f' t rest.page_results) (sym count) ∙ others)
              (ground arith) lt)
        | inr now ↦
            let same : i ≡ j = ground arith in
            subst (λ t. Any (IsWritten (key_at t)) (steps ++ rest.steps)) same
              (Any-append_left (IsWritten (key_at i)) steps rest.steps (
                any_written-IsWritten net retry_count (key_at i) params adv rest.page_results (
                  ap (λ t. any_written t (bits ++ rest.page_results))
                    (sym (length-write_replicas net retry_count (key_at i) params adv))
                  ∙ first)))
      ]

  add_page-Kept :
      (i : ℕ) (params : List Buffer) (adv : List Provider) (o : Option Pages)
      → 0 < replica_count
      → length adv ≡ replica_count
      → Kept (suc i) o
      → Kept i (add_page (key_at i) (write_replicas net retry_count (key_at i) params adv) o)
  add_page-Kept i params adv none pos len kept = λ p f j e. cc
  add_page-Kept i params adv (some rest) pos len kept = λ p f j e all le lt.
      let same = ap (pages_or rest) e in
      subst (λ t. Any (IsWritten (key_at j)) t) (ap (λ t. t.steps) same)
        (joined-Kept i params adv rest pos len kept f j
          (ap (λ t. all_written f replica_count t.page_results) same ∙ all) le lt)

  -- If the pages from number `i` on pass the check, each of them has a replica that was written.
  pub write_pages-Kept :
      (fuel i : ℕ) (adv : List Provider)
      → 0 < replica_count
      → Kept i (write_pages c net retry_count mem range page_size replica_count fuel i adv)
  unfolding write_pages
  write_pages-Kept zero i adv pos = λ p f j e. cc
  write_pages-Kept (suc fuel) i adv pos = elim (Bool-cases (ltb (i * page_size % u64) range.size)) [
    | inl more ↦ elim (Bool-cases (ltb (length adv) replica_count)) [
      | inl few ↦ rw (more, few) (λ p f j e. cc)
      | inr enough ↦
          rw (more, enough)
            (add_page-Kept i
              (c.query.encode (key_at i) ∷ bytes mem (i * page_size % u64) page_size ∷ [])
              (take replica_count adv)
              (write_pages c net retry_count mem range page_size replica_count fuel (suc i)
                (drop replica_count adv))
              pos (length-take replica_count adv (ground arith))
              (write_pages-Kept fuel (suc i) (drop replica_count adv) pos))
    ]
    | inr end ↦ λ p f j e all le lt. absurd (ground (arith, end, mul-le-mul_right page_size le, lt))
  ]
