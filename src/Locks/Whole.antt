-- ===== src/Locks/Whole.antt =====
-- A whole request of smb2_lock of smb2pdu.c, from its elements on.
use cifsd.Base.{ℕ, ◌≡◌, ◌<◌, ◌≢◌, ◌⊎◌, inl, inr, List, length}
use cifsd.Locks.{LockElement, Lock, u64_mod, offset_max}
use cifsd.Locks.Rollback.{IsNumbered}

unfoldable pub IsNoUnlock : LockElement → Type 0
IsNoUnlock e = e.flags ≢ 4

-- The range has bytes, and is one that the protocol can name: a range that starts at OFFSET_MAX is cut to
-- none.
unfoldable pub HasBytes : LockElement → Type 0
HasBytes e = (0 < e.len) × (e.len < u64_mod) × (e.offset < u64_mod) × (e.offset ≢ offset_max)

-- What the first loop gives: an error, or the locks of all elements.
data IsRead (n m : ℕ) : ℕ ⊎ List Lock → Type 0 where
  wrong : (status : ℕ) → IsRead n m (inl status)
  read : {locks : List Lock} → IsNumbered n locks → length locks ≡ m → IsRead n m (inr locks)
