-- ===== src/Client/Plan.antt =====
-- The requests of `read` in client/object_handler.cpp: which page, which of its bytes, and where in
-- the user's buffer they go.
use blobseer.Prelude.{
  ℕ, zero, suc, ◌+◌, ◌-◌, ◌*◌, ◌/◌, ◌%◌, Bool, true, false, not, ◌&&◌, ◌||◌, List, [], ◌∷◌, ◌++◌,
  u32, u64, ltb, ◌==◌, if◌then◌else◌,
}

pub record PageRead : Type 0 where
  pub index : ℕ
  -- `PROVIDER_READ_PARTIAL`, or else `PROVIDER_READ`.
  pub is_partial : Bool
  pub start : ℕ
  pub count : ℕ
  -- The place in the user's buffer.
  pub dest : ℕ

-- The pages of a range: the offset of the first, and their number.
abbrev pub new_offset : ℕ → ℕ → ℕ
new_offset psize offset = offset / psize * psize

abbrev pub nbr_vadv : ℕ → ℕ → ℕ → ℕ
nbr_vadv psize offset size =
    ((size + offset + u64 - new_offset psize offset) % u64 / psize
      + (if ((offset + size) % u64) % psize == 0 then 0 else 1))
    % u64

abbrev pub left_part : ℕ → ℕ → ℕ
left_part psize offset = (psize - offset % psize) % psize

abbrev pub right_part : ℕ → ℕ → ℕ → ℕ
right_part psize offset size = (offset + size) % u64 % psize

-- Whether the first page, and the last, are read in part.
abbrev pub cuts_left : ℕ → ℕ → Bool
cuts_left psize offset = not (offset % psize == 0)

abbrev pub cuts_right : ℕ → ℕ → ℕ → ℕ → Bool
cuts_right psize offset size r =
    (not (right_part psize offset size == 0) && ltb 1 r) || (offset % psize == 0 && ltb size psize)

abbrev pub left_read : ℕ → ℕ → ℕ → PageRead
left_read psize offset size = record {
  index = 0;
  is_partial = true;
  start = psize - left_part psize offset;
  count = if ltb (left_part psize offset) size then left_part psize offset else size;
  dest = 0;
}

abbrev pub right_read : ℕ → ℕ → ℕ → ℕ → ℕ → PageRead
right_read psize offset size l r = record {
  index = r;
  is_partial = true;
  start = 0;
  count = right_part psize offset size;
  dest = (left_part psize offset + (r + u32 - l) % u32 * psize) % u64;
}

-- The loop over the whole pages: `n` more from page `i` on.
unfoldable pub whole_reads : ℕ → ℕ → ℕ → ℕ → ℕ → List PageRead
whole_reads psize left l i zero = []
whole_reads psize left l i (suc n) =
    record {
      index = i;
      is_partial = false;
      start = 0;
      count = psize;
      dest = (left + (i + u32 - l) % u32 * psize) % u64;
    }
    ∷ whole_reads psize left l (suc i) n

-- All requests, in order, for `pages` pages. (`r--` on no page, a read of size 0 at the start of a
-- page, is the caller's case.)
unfoldable pub plan : ℕ → ℕ → ℕ → ℕ → List PageRead
plan psize offset size pages =
    let l = if cuts_left psize offset then 1 else 0 in
    let r = if cuts_right psize offset size pages then pages - 1 else pages in
    (if cuts_left psize offset then left_read psize offset size ∷ [] else [])
    ++ (if cuts_right psize offset size pages then right_read psize offset size l r ∷ [] else [])
    ++ whole_reads psize (left_part psize offset) l l (r - l)
