-- ===== src/Locks/Range.antt =====
-- The ranges of locks in smb2_lock of smb2pdu.c: how they are read, and when two of them conflict.
use cifsd.Base.{◌+◌, ◌≡◌, ◌≤◌, ◌<◌, ◌↔◌, true, false, some, List, [], ◌∷◌, All, arith}
use cifsd.Locks.{
  u64_mod, offset_max, LockElement, Lock, clamp, lock_range, range_conflict, is_compatible,
  conflicts, any_conflict,
}

-- The ranges have a byte in common.
pub Overlaps : Lock → Lock → Type 0
Overlaps a b = (a.start < b.end) × (b.start < a.end)

-- The first range goes beyond the second on both sides.
pub Encloses : Lock → Lock → Type 0
Encloses a b = (a.start < b.start) × (b.end < a.end)

-- Two ranges with bytes in them are found to conflict if and only if they overlap and the new one does not
-- go beyond the other on both sides.
pub range_conflict_iff :
    (cmp new : Lock)
    → cmp.zero_len ≡ false
    → new.zero_len ≡ false
    → cmp.start < cmp.end
    → new.start < new.end
    → (range_conflict cmp new ≡ true) ↔ (Overlaps cmp new × ¬ Encloses new cmp)
unfolding range_conflict Overlaps Encloses
range_conflict_iff cmp new a b c d = (λ e. ground arith, λ h. ground arith)

-- The locks that a new one has to respect: of the same file if it is not shared, and those of other files
-- of the inode that are not shared.
pub Rivals : Lock → Lock → Type 0
Rivals cmp new = (cmp.inode ≡ new.inode) × (is_compatible cmp new ≡ false)

pub Leaves : Lock → Lock → Type 0
Leaves new cmp =
    Rivals cmp new
    → cmp.zero_len ≡ false
    → cmp.start < cmp.end
    → Overlaps cmp new
    → Encloses new cmp

conflicts-Leaves :
    (cmp new : Lock)
    → new.zero_len ≡ false
    → new.start < new.end
    → conflicts cmp new ≡ false
    → Leaves new cmp
unfolding conflicts range_conflict Overlaps Encloses Rivals Leaves
conflicts-Leaves cmp new z d e r z' d' o = ground arith

-- A lock that passes the test of the global list overlaps a rival only if it goes beyond the rival's range on
-- both sides.
pub any_conflict-Leaves :
    (global : List Lock) (new : Lock)
    → new.zero_len ≡ false
    → new.start < new.end
    → any_conflict global new ≡ false
    → All (Leaves new) global
unfolding any_conflict
any_conflict-Leaves [] new z d e = tt
any_conflict-Leaves (c ∷ locks) new z d e =
    (conflicts-Leaves c new z d (ground arith), any_conflict-Leaves locks new z d (ground arith))

-- An element with an offset up to OFFSET_MAX gives the range from there, cut at OFFSET_MAX; it is never
-- refused. An offset beyond OFFSET_MAX is not refused either, if the range ends below 2 ^ 64.
pub lock_range-never_refused :
    (e : LockElement)
    → e.offset < u64_mod
    → e.len < u64_mod
    → (e.offset ≤ offset_max
        → e.offset + e.len ≤ offset_max
        → lock_range e ≡ some (e.offset, e.offset + e.len))
      × (e.offset ≤ offset_max
          → offset_max < e.offset + e.len
          → lock_range e ≡ some (e.offset, offset_max))
      × (offset_max < e.offset
          → e.offset + e.len < u64_mod
          → lock_range e ≡ some (e.offset, e.offset + e.len))
unfolding lock_range clamp
lock_range-never_refused e o l = (λ a b. ground arith, λ a b. ground arith, λ a b. ground arith)
