-- ===== src/VManager/Intervals.antt =====
-- The queue of reserved writes: the `interval_list_t` of common/structures.hpp, a std::map ordered
-- by version alone, and the loop of `publish` over it.
use blobseer.Structures.{Query, Root}
use blobseer.Prelude.{ℕ, Bool, true, false, ◌||◌, List, [], ◌∷◌, ◌++◌, ltb, ◌==◌, if◌then◌else◌}

-- A key with its `root_flag_t`.
pub record Entry : Type 0 where
  pub key : Query
  pub root : Root
  pub completed : Bool

-- `insert`: an entry with the same version stays.
unfoldable pub insert_entry : Entry → List Entry → List Entry
insert_entry e [] = e ∷ []
insert_entry e (x ∷ xs) =
    if ltb e.key.version x.key.version
    then e ∷ x ∷ xs
    else if ltb x.key.version e.key.version
    then x ∷ insert_entry e xs
    else x ∷ xs

-- `find(interval) != end()`.
unfoldable pub has_version : ℕ → List Entry → Bool
has_version v [] = false
has_version v (x ∷ xs) = x.key.version == v || has_version v xs

-- `j->second.second = true` at the entry found.
unfoldable pub mark : ℕ → List Entry → List Entry
mark v [] = []
mark v (x ∷ xs) = if x.key.version == v then record x { completed = true } ∷ xs else x ∷ mark v xs

-- The completed entries at the front become roots, in order.
unfoldable pub drain : List Root → List Entry → List Root × List Entry
drain roots [] = (roots, [])
drain roots (x ∷ xs) =
    let rest = drain (roots ++ x.root ∷ []) xs in if x.completed then rest else (roots, x ∷ xs)
