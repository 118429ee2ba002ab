-- ===== src/Plock/Range.antt =====
-- group/dlm_controld/plock.c: how two byte ranges lie to one another, and cutting one by the other.
pub mod Geometry
use dlm.Base.{
  ℕ, ◌≡◌, Bool, true, false, ◌&&◌, ◌||◌, Option, none, some, ltb, leb, ◌==◌, if◌then◌else◌,
  succ_u64, pred_u64,
}

-- `ranges_overlap`
unfoldable pub ranges_overlap : ℕ → ℕ → ℕ → ℕ → Bool
ranges_overlap start1 end1 start2 end2 = if ltb end1 start2 || ltb end2 start1 then false else true

-- The values 0, 1, 2, 3, 4 and -1 of `overlap_type`.
pub data OverlapType : Type 0 where
  same at_edge inside covering partial invalid : OverlapType

unfoldable pub overlap_type : ℕ → ℕ → ℕ → ℕ → OverlapType
overlap_type s1 e1 s2 e2 =
    if s1 == s2 && e1 == e2
    then same
    else if s1 == s2 && ltb e1 e2
    then at_edge
    else if ltb s2 s1 && e1 == e2
    then at_edge
    else if ltb s2 s1 && ltb e1 e2
    then inside
    else if leb s1 s2 && leb e2 e1
    then covering
    else if ltb s2 s1 && ltb e2 e1
    then partial
    else if ltb s1 s2 && ltb e1 e2
    then partial
    else invalid

-- `shrink_range2`: the new start and end of the second range; `none` is -1, with nothing changed.
unfoldable pub shrink_range2 : ℕ → ℕ → ℕ → ℕ → Option (ℕ × ℕ)
shrink_range2 start2 end2 start end =
    if ltb start2 start
    then some (start2, pred_u64 start)
    else if ltb end end2
    then some (succ_u64 end, end2)
    else none
