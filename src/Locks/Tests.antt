-- ===== src/Locks/Tests.antt =====
-- Lock requests on one file.
use cifsd.Base.{◌≡◌, refl, false, List, [], ◌∷◌, All, arith}
use cifsd.Locks.{
  LockElement, wrlck, Lock, Place, is_unlck, lock_kind, clamp, lock_range, covered, smb2_lock_init,
  read_next, read_locks, zero_conflict, range_conflict, is_compatible, conflicts, any_conflict,
  is_unlocked_by, remove_lock,
}
use cifsd.Locks.Apply.{
  granted, obtain, drop_lock, roll_back, fails, is_mixed, search_global, after_obtain, after_unlock,
  call_vfs, checked_lock, take_locks, error, last_unlocks, after_read, smb2_lock,
}
use cifsd.Locks.Range.{Leaves, any_conflict-Leaves}

abbrev place : Place
place = record { file = 1; inode = 1; next = 10 }

-- An exclusive lock of the same file on the bytes from 4 to 8.
abbrev held : Lock
held = record {
  ptr = 3;
  file = 1;
  inode = 1;
  start = 4;
  end = 8;
  zero_len = false;
  type = wrlck;
  flags = 2;
  pending = false;
}

abbrev wide : Lock
wide = record held { ptr = 10; start = 0; end = 20; flags = 0x12 }

abbrev two : List LockElement
two =
    record { flags = 0x12; offset = 100; len = 5 }
    ∷ record { flags = 0x12; offset = 200; len = 5 }
    ∷ []

-- The new lock has all bytes of the other one and passes.
wide_passes : any_conflict (held ∷ []) wide ≡ false
unfolding any_conflict conflicts zero_conflict range_conflict is_compatible
wide_passes = refl

any_conflict-Leaves_example : All (Leaves wide) (held ∷ [])
any_conflict-Leaves_example = any_conflict-Leaves (held ∷ []) wide refl (omega arith) wide_passes

abbrev high : LockElement
high = record { flags = 2; offset = 9223372036854775808; len = 1 }

-- An unlock before a lock: the request is answered with an error, and the lock is gone.
mixed :
    smb2_lock place
      (record { flags = 4; offset = 4; len = 4 } ∷ record { flags = 2; offset = 50; len = 1 } ∷ [])
      (granted ∷ [])
      (held ∷ [])
    ≡ error 0xC000000D []
unfolding smb2_lock after_read take_locks last_unlocks checked_lock call_vfs after_unlock
    after_obtain search_global is_mixed fails roll_back drop_lock obtain remove_lock is_unlocked_by
    read_locks read_next smb2_lock_init covered lock_range clamp lock_kind is_unlck
mixed = refl
