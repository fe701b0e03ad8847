-- ===== src/Locks.antt =====
-- Byte-range locks: smb2_lock of smb2pdu.c. 64-bit values are their unsigned patterns; the kernel's answers to
-- vfs_lock_file, and how a wait for a lock ends, are a list of answers in the order of the calls.
pub mod Apply
pub mod Range
pub mod Rollback
pub mod Whole
mod Tests
use cifsd.Base.{
  ℕ, zero, suc, ◌+◌, ◌-◌, ◌%◌, ◌≡◌, Bool, true, false, not, ◌&&◌, ◌||◌, Option, none, some, List,
  [], ◌∷◌, ◌++◌, ◌⊎◌, inl, inr, is_empty, length, ltb, leb, ◌==◌, test_bit, if◌then◌else◌,
}

abbrev pub u64_mod : ℕ
u64_mod = 18446744073709551616

-- OFFSET_MAX of the kernel.
abbrev pub offset_max : ℕ
offset_max = 9223372036854775807

abbrev pub add64 : ℕ → ℕ → ℕ
add64 x y = (x + y) % u64_mod

abbrev pub sub64 : ℕ → ℕ → ℕ
sub64 x y = (x + u64_mod - y) % u64_mod

-- `x < y` on `loff_t`, which is signed.
abbrev pub lt_s64 : ℕ → ℕ → Bool
lt_s64 x y = ltb (add64 x 9223372036854775808) (add64 y 9223372036854775808)

-- struct smb2_lock_element
pub record LockElement : Type 0 where
  pub flags : ℕ
  pub offset : ℕ
  pub len : ℕ

pub data LockType : Type 0 where
  rdlck wrlck unlck : LockType

unfoldable pub is_unlck : LockType → Bool
is_unlck unlck = true
is_unlck rdlck = false
is_unlck wrlck = false

-- struct cifsd_lock with its file_lock; `pending` is whether someone waits on it.
pub record Lock : Type 0 where
  pub ptr : ℕ
  pub file : ℕ
  pub inode : ℕ
  pub start : ℕ
  pub end : ℕ
  pub zero_len : Bool
  pub type : LockType
  pub flags : ℕ
  pub pending : Bool

-- The status of the response: an error keeps the code that it is answered with.
abbrev pub invalid_parameter : ℕ
invalid_parameter = 0xC000000D

abbrev pub invalid_lock_range : ℕ
invalid_lock_range = 0xC00001a1

abbrev pub lock_not_granted : ℕ
lock_not_granted = 0xC0000055

abbrev pub range_not_locked : ℕ
range_not_locked = 0xC000007E

-- The `switch` over the flags: the type of the lock and the flags that are kept. A wrong combination
-- leaves the type of smb_flock_init, which is F_RDLCK (0), and no flags.
unfoldable pub lock_kind : ℕ → LockType × ℕ
lock_kind flags =
    if flags == 1
    then (rdlck, 1)
    else if flags == 2
    then (wrlck, 2)
    else if flags == 0x11
    then (rdlck, 0x11)
    else if flags == 0x12
    then (wrlck, 0x12)
    else if flags == 4
    then (unlck, 4)
    else (rdlck, 0)

-- The length of the range, cut at OFFSET_MAX.
unfoldable pub clamp : ℕ → ℕ → ℕ
clamp start len = if ltb (sub64 offset_max start) len then sub64 offset_max start else len

-- The range of an element, or none if it is refused.
unfoldable pub lock_range : LockElement → Option (ℕ × ℕ)
unfolding clamp
lock_range e =
    let end = add64 e.offset (clamp e.offset e.len) in
    if lt_s64 offset_max e.offset
    then none
    else if lt_s64 end e.offset
    then none
    else some (e.offset, end)

-- A lock of the same request that covers the range.
unfoldable pub covered : List Lock → LockType → ℕ → ℕ → Bool
unfolding is_unlck
covered [] type start end = false
covered (c ∷ locks) type start end =
    let rest = covered locks type start end in
    if not (lt_s64 start c.start)
      && not (lt_s64 c.end end)
      && not (is_unlck c.type)
      && not (is_unlck type)
    then true
    else rest

-- smb2_lock_init
unfoldable pub smb2_lock_init : ℕ → ℕ → ℕ → LockType × ℕ → ℕ × ℕ → Lock
smb2_lock_init ptr file inode kind range = record {
  ptr = ptr;
  file = file;
  inode = inode;
  start = range.0;
  end = range.1;
  zero_len = range.0 == range.1;
  type = kind.0;
  flags = kind.1;
  pending = false;
}

-- The file of the request, and the pointer that the next allocation gives.
pub record Place : Type 0 where
  pub file : ℕ
  pub inode : ℕ
  pub next : ℕ

-- An element with its range: it is refused, or the loop goes on with one lock more.
unfoldable pub read_next :
    Place → List Lock → LockType × ℕ → Option (ℕ × ℕ) → (List Lock → ℕ ⊎ List Lock) → ℕ ⊎ List Lock
unfolding covered smb2_lock_init
read_next p done kind none rest = inl invalid_lock_range
read_next p done kind (some r) rest =
    if covered done kind.0 r.0 r.1
    then inl invalid_parameter
    else rest (done ++ smb2_lock_init p.next p.file p.inode kind r ∷ [])

-- The first loop: the locks in order, or the status of the error. `done` holds those so far.
unfoldable pub read_locks : Place → List Lock → List LockElement → ℕ ⊎ List Lock
unfolding lock_kind lock_range read_next
read_locks p done [] = inr done
read_locks p done (e ∷ elements) =
    read_next p done (lock_kind e.flags) (lock_range e)
      (λ done'. read_locks (record p { next = p.next + 1 }) done' elements)

-- The tests of a lock in the global list against a new one that is to fail at once.
unfoldable pub zero_conflict : Lock → Lock → Bool
zero_conflict cmp new =
    (cmp.zero_len && not new.zero_len && ltb new.start cmp.start && ltb cmp.start new.end)
    || (new.zero_len && not cmp.zero_len && ltb cmp.start new.start && ltb new.start cmp.end)

unfoldable pub range_conflict : Lock → Lock → Bool
range_conflict cmp new =
    ((leb cmp.start new.start && ltb new.start cmp.end)
      || (ltb cmp.start new.end && leb new.end cmp.end))
    && not cmp.zero_len
    && not new.zero_len

-- Locks that do not conflict by their kind: a new shared one with those of its own file, any with a
-- shared one of another file.
unfoldable pub is_compatible : Lock → Lock → Bool
is_compatible cmp new = if cmp.file == new.file then test_bit new.flags 0 else test_bit cmp.flags 0

unfoldable pub conflicts : Lock → Lock → Bool
unfolding zero_conflict range_conflict is_compatible
conflicts cmp new =
    if not (cmp.inode == new.inode)
    then false
    else if is_compatible cmp new
    then false
    else zero_conflict cmp new || range_conflict cmp new

unfoldable pub any_conflict : List Lock → Lock → Bool
unfolding conflicts
any_conflict [] new = false
any_conflict (c ∷ locks) new =
    let rest = any_conflict locks new in if conflicts c new then true else rest

-- The lock that an unlock names.
unfoldable pub is_unlocked_by : Lock → Lock → Bool
is_unlocked_by new cmp =
    (cmp.inode == new.inode)
    && (cmp.file == new.file)
    && (cmp.start == new.start)
    && (cmp.end == new.end)
    && not cmp.pending

-- The global list without the first such lock, or none if there is none.
unfoldable pub remove_lock : Lock → List Lock → Option (List Lock)
unfolding is_unlocked_by
remove_lock new [] = none
remove_lock new (c ∷ locks) =
    let rest = remove_lock new locks in
    if is_unlocked_by new c then some locks else elim rest [ none ↦ none | some l ↦ some (c ∷ l) ]
