-- ===== src/Cache/Valid.antt =====
-- The invariant of common/cache_mt.hpp over a policy that is a queue of keys: the policy's keys are
-- the keys of the map, and there are no more entries than slots.
use blobseer.Cache.Eviction.{Policy, IsQueue, forget}
use blobseer.Cache.Keys.{
  hit_keys, Once-hit, is_some, one_if, has, Once, has-forget, length-forget, Once-forget, Unique,
  find-erase, find-insert, length-erase, length-insert, Unique-erase, Unique-insert,
}
use mathlib.Core.Option
use blobseer.Cache.{Cache, stored, read, free, clear}
use blobseer.Prelude.Map.{find, insert}
use blobseer.Prelude.{
  ◌≤◌, ◌<◌, ◌≡◌, refl, sym, ap, ◌∙◌, ◌≢◌, inl, inr, ite, if_pos, if_neg, Bool, true, none, some,
  List, [], ◌∷◌, ◌++◌, length, length-append, Option-cases, arith, if◌then◌else◌,
}

module _ {K V : Type 0} (dec : Discrete K) (p : Policy K) (q : IsQueue dec p) where
  abbrev pub order : Cache K V p → List K
  order c = q.order c.policy

  -- The cache holds the keys of the queue, each once, and no more of them than it has slots.
  pub record IsValid (c : Cache K V p) : Type 0 where
    pub inv : q.Inv c.policy
    pub once : Once dec (q.order c.policy)
    pub unique : Unique dec c.map
    pub keys : (k : K) → has dec k (q.order c.policy) ≡ is_some (find dec k c.map)
    pub sizes : length (q.order c.policy) ≡ length c.map
    pub bounded : length c.map ≤ c.m_size

  -- The cache is valid but for the key `k`, which has no entry, and has a free slot.
  pub record HasRoom (k : K) (c : Cache K V p) : Type 0 where
    pub inv : q.Inv c.policy
    pub once : Once dec (q.order c.policy)
    pub unique : Unique dec c.map
    pub absent : find dec k c.map ≡ none
    pub keys : (j : K) → j ≢ k → has dec j (q.order c.policy) ≡ is_some (find dec j c.map)
    pub sizes : length (forget dec k (q.order c.policy)) ≡ length c.map
    pub room : length c.map < c.m_size

  pub order-stored :
      (k : K) (v : V) (d : Bool) (c : Cache K V p)
      → HasRoom k c
      → order (stored dec p k v d c) ≡ forget dec k (order c) ++ k ∷ []
  order-stored k v d c r = (q.order-hit k c.policy r.inv).1

  pub stored-IsValid :
      (k : K) (v : V) (d : Bool) (c : Cache K V p) → HasRoom k c → IsValid (stored dec p k v d c)
  stored-IsValid k v d c r =
      let e = order-stored k v d c r in
      record {
        inv = (q.order-hit k c.policy r.inv).0;
        once = rw e (Once-hit dec k (order c) r.once);
        unique = Unique-insert dec k (v, d) c.map r.absent r.unique;
        keys = λ j. rw e (elim (dec j k) [
          | yes same ↦
              hit_keys dec j k (order c)
              ∙ if_pos (dec j k) same _ _
              ∙ sym (ap is_some (found j ∙ if_pos (dec j k) same _ _))
          | no other ↦
              hit_keys dec j k (order c)
              ∙ if_neg (dec j k) other _ _
              ∙ r.keys j other
              ∙ sym (ap is_some (found j ∙ if_neg (dec j k) other _ _))
        ]);
        sizes = rw e (
            omega (
              arith,
              length-append (forget dec k (order c)) (k ∷ []),
              length-insert dec k (v, d) c.map r.absent,
              r.sizes,
            ));
        bounded = omega (arith, length-insert dec k (v, d) c.map r.absent, r.room);
      }
    where
      found :
          (j : K)
          → find dec j (insert dec k (v, d) c.map) ≡ ite (dec j k) (some (v, d)) (find dec j c.map)
      found j = find-insert dec j k (v, d) c.map r.absent

  -- A cleared cache is valid, whatever it was before.
  pub clear-IsValid : (c : Cache K V p) → IsValid (clear dec p c)
  unfolding clear find has
  clear-IsValid c =
      let (i, e) = q.order-clear c.policy in
      record {
        inv = i;
        once = rw e tt;
        unique = tt;
        keys = λ k. rw e refl;
        sizes = rw e (omega arith);
        bounded = omega arith;
      }

  module _ (c : Cache K V p) (v : IsValid c) where
    touched :
        (s : p.State) → q.Inv s → q.order s ≡ q.order c.policy → IsValid (record c { policy = s })
    touched s i e = record {
      inv = i;
      once = rw e v.once;
      unique = v.unique;
      keys = λ k. rw e (v.keys k);
      sizes = rw e v.sizes;
      bounded = v.bounded;
    }

    present : (k : K) {e : V × Bool} → find dec k c.map ≡ some e → has dec k (order c) ≡ true
    present k f = v.keys k ∙ ap is_some f

    hit-IsValid :
        (k : K) {e : V × Bool}
        → find dec k c.map ≡ some e
        → IsValid (record c { policy = p.hit k c.policy })
    hit-IsValid k f =
        let (i, e) = q.order-hit k c.policy v.inv in
        record {
          inv = i;
          once = rw e (Once-hit dec k (order c) v.once);
          unique = v.unique;
          keys = λ j. rw e (
              hit_keys dec j k (order c) ∙ elim (dec j k) [
                | yes same ↦ if_pos (dec j k) same _ _ ∙ held j same
                | no other ↦ if_neg (dec j k) other _ _ ∙ v.keys j
              ]);
          sizes = rw e (
              omega (
                arith,
                length-append (forget dec k (order c)) (k ∷ []),
                length-forget dec k (order c) v.once,
                ap one_if (present k f),
                v.sizes,
              ));
          bounded = v.bounded;
        }
      where
        held : (j : K) → j ≡ k → true ≡ is_some (find dec j c.map)
        held j same = rw same (sym (ap is_some f))

    -- A read keeps the cache valid, answers what the map holds, and leaves the map.
    pub read_lem :
        (k : K)
        → IsValid (read dec p k c).1
          × ((read dec p k c).0 ≡ Option.map (λ e. e.0) (find dec k c.map))
          × ((read dec p k c).1.map ≡ c.map)
          × (order (read dec p k c).1
              ≡ (if is_some (find dec k c.map) then forget dec k (order c) ++ k ∷ [] else order c))
    unfolding read
    read_lem k = elim (Option-cases (find dec k c.map)) [
      | inl e ↦
          let (i, o) = q.order-miss k c.policy v.inv in
          rw (e, read) (touched (p.miss k c.policy) i o, refl, refl, o)
      | inr (x, e) ↦ rw (e, read) (hit-IsValid k e, refl, refl, (q.order-hit k c.policy v.inv).1)
    ]

    -- Freeing a key takes it, and nothing else, out of the cache.
    pub free_lem :
        (k : K)
        → IsValid (free dec p k c)
          × (order (free dec p k c) ≡ forget dec k (order c))
          × ((j : K) → find dec j (free dec p k c).map ≡ ite (dec j k) none (find dec j c.map))
    unfolding free
    free_lem k =
        let (i, e) = q.order-invalidate k c.policy v.inv in
        (
          record {
            inv = i;
            once = rw e (Once-forget dec k (order c) v.once);
            unique = Unique-erase dec k c.map v.unique;
            keys = λ j. rw e (
                has-forget dec j k (order c) ∙ elim (dec j k) [
                  | yes same ↦
                      if_pos (dec j k) same _ _
                      ∙ sym (ap is_some (find-erase dec j k c.map ∙ if_pos (dec j k) same _ _))
                  | no other ↦
                      if_neg (dec j k) other _ _
                      ∙ v.keys j
                      ∙ sym (ap is_some (find-erase dec j k c.map ∙ if_neg (dec j k) other _ _))
                ]);
            sizes = rw e (
                omega (
                  arith,
                  length-forget dec k (order c) v.once,
                  length-erase dec k c.map v.unique,
                  ap one_if (v.keys k),
                  v.sizes,
                ));
            bounded = omega (arith, length-erase dec k c.map v.unique, v.bounded);
          },
          e,
          λ j. find-erase dec j k c.map,
        )
