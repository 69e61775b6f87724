-- ===== src/Cache/Lru/Laws.antt =====
-- The operations of `cache_mt_LRU` (common/cache_mt.hpp) and the laws of a queue of keys.
use mathlib.Core.List.{map-append}
use blobseer.Cache.Eviction.{IsQueue, forget}
use blobseer.Cache.Lru.Queue.{
  order, Rising-erase, Rising-append, node_of, Distinct, forget_absent, erase_node-forget,
  node_of-erase_self, node_of-erase_ne, Distinct-erase, node_of-append, Distinct-append, Linked,
}
use blobseer.Cache.Lru.{Lru, erase_node, invalidate, push_back, hit, evict_entry, clear, lru}
use blobseer.Prelude.Map.{
  find, erase, find-erase_self, find-erase_ne, find-insert_self, find-insert_ne,
}
use blobseer.Prelude.{
  ℕ, ◌≡◌, refl, sym, ap, subst, ◌∙◌, inl, inr, if_pos, if_neg, none, some, List, [], ◌∷◌, ◌++◌, map,
  Option-cases, arith,
}

module _ {K : Type 0} (dec : Discrete K) where
  -- After an invalidation the key is gone from the list and from the map.
  pub record Removed (k : K) (s s' : Lru K) : Type 0 where
    pub linked : Linked dec s'
    pub keys : order s' ≡ forget dec k (order s)
    pub absent : node_of dec k s'.queue ≡ none

  invalidated :
      (k : K) (i : ℕ) (s : Lru K)
      → Linked dec s
      → node_of dec k s.queue ≡ some i
      → Removed k s
          (record s { queue = erase_node i s.queue; access_count = erase dec k s.access_count })
  invalidated k i s l e = record {
    linked = record {
      rising = Rising-erase i 0 s.next_node s.queue l.rising;
      distinct = Distinct-erase dec i s.queue l.distinct;
      indexed = λ m. elim (dec m k) [
        | yes p ↦ rw p (
            find-erase_self dec k s.access_count
            ∙ sym (node_of-erase_self dec k i 0 s.next_node s.queue l.rising l.distinct e))
        | no p ↦
            find-erase_ne dec k m s.access_count p
            ∙ l.indexed m
            ∙ sym (node_of-erase_ne dec k m i 0 s.next_node s.queue l.rising e p)
      ];
    };
    keys = erase_node-forget dec k i 0 s.next_node s.queue l.rising l.distinct e;
    absent = node_of-erase_self dec k i 0 s.next_node s.queue l.rising l.distinct e;
  }

  invalidate-Removed : (k : K) (s : Lru K) → Linked dec s → Removed k s (invalidate dec k s)
  unfolding invalidate
  invalidate-Removed k s l = elim (Option-cases (find dec k s.access_count)) [
    | inl e ↦
        let absent : node_of dec k s.queue ≡ none = sym (l.indexed k) ∙ e in
        rw (e, invalidate)
          (record { linked = l; keys = sym (forget_absent dec k s.queue absent); absent = absent })
    | inr (i, e) ↦ rw (e, invalidate) (invalidated k i s l (sym (l.indexed k) ∙ e))
  ]

  push_back-Linked :
      (k : K) (s : Lru K)
      → Linked dec s
      → node_of dec k s.queue ≡ none
      → Linked dec (push_back dec k s)
  push_back-Linked k s l e = record {
    rising = Rising-append 0 s.next_node k s.queue l.rising;
    distinct = Distinct-append dec k s.next_node s.queue e l.distinct;
    indexed = λ m. elim (dec m k) [
      | yes p ↦ rw p (
          find-insert_self dec k s.next_node s.access_count (l.indexed k ∙ e)
          ∙ sym (node_of-append dec k k s.next_node s.queue e ∙ if_pos (dec k k) refl _ _))
      | no p ↦
          find-insert_ne dec k m s.next_node s.access_count p
          ∙ l.indexed m
          ∙ sym (node_of-append dec m k s.next_node s.queue e ∙ if_neg (dec m k) p _ _)
    ];
  }

  hit_lem :
      (k : K) (s : Lru K)
      → Linked dec s
      → Linked dec (hit dec k s) × (order (hit dec k s) ≡ forget dec k (order s) ++ k ∷ [])
  unfolding hit
  hit_lem k s l =
      let r = invalidate-Removed k s l in
      (
        push_back-Linked k (invalidate dec k s) r.linked r.absent,
        map-append (λ e. e.1) (invalidate dec k s).queue _ ∙ ap (λ t. t ++ k ∷ []) r.keys,
      )

  evict_none :
      (s : Lru K) (q : List (ℕ × K)) → s.queue ≡ q → order s ≡ [] → evict_entry dec s ≡ none
  unfolding evict_entry
  evict_none s [] e h = rw (e, evict_entry) refl
  evict_none s (x ∷ q) e h = cc (ap (map (λ (n : ℕ × K). n.1)) e)

  forget_head :
      (k : K) (q : List (ℕ × K))
      → node_of dec k q ≡ none
      → forget dec k (k ∷ map (λ e. e.1) q) ≡ map (λ e. e.1) q
  unfolding forget
  forget_head k q e = if_pos (dec k k) refl _ _ ∙ forget_absent dec k q e

  evict_some :
      (s : Lru K) (q : List (ℕ × K)) (k : K) (ks : List K)
      → s.queue ≡ q
      → Linked dec s
      → order s ≡ k ∷ ks
      → (s' : Lru K) × (evict_entry dec s ≡ some (k, s')) × Linked dec s' × (order s' ≡ ks)
  unfolding evict_entry
  evict_some s [] k ks e l h = absurd (cc (ap (map (λ (n : ℕ × K). n.1)) e))
  evict_some s ((i, x) ∷ q) k ks e l h =
      let r = invalidate-Removed x s l in
      let keys : order s ≡ x ∷ map (λ e. e.1) q = ap (map (λ (n : ℕ × K). n.1)) e in
      let d : Distinct dec ((i, x) ∷ q) = subst (Distinct dec) e l.distinct in
      let rest : order (invalidate dec x s) ≡ map (λ e. e.1) q =
        r.keys ∙ ap (forget dec x) keys ∙ forget_head x q d.0 in
      (invalidate dec x s, rw (e, evict_entry) (cc (keys, h)), r.linked, rest ∙ cc (keys, h))

  -- The list and the map of `cache_mt_LRU` stay consistent under all its operations, and together
  -- stand for a queue of distinct keys: a hit moves the key to the back, an invalidation takes it
  -- out, and the front is evicted.
  pub lru-IsQueue : IsQueue dec (lru dec)
  unfolding clear find node_of
  lru-IsQueue = record {
    Inv = Linked dec;
    order = order;
    order-hit = hit_lem;
    order-miss = λ k s l. (l, refl);
    order-invalidate = λ k s l. let r = invalidate-Removed k s l in (r.linked, r.keys);
    order-clear = λ s. (record { rising = omega arith; distinct = tt; indexed = λ k. refl }, refl);
    evict_empty = λ s l e. evict_none s s.queue refl e;
    evict_front = λ s k ks l e. evict_some s s.queue k ks refl l e;
  }
