-- ===== src/Vfs.antt =====
-- vfs.c: the byte-range locks that reads and writes respect, and the server-side copy. An offset is held
-- as its 64-bit pattern; what the kernel's copy answers for a chunk stands beside it.
pub mod Copy
mod Tests
use Prim.Native.Nat.{bit_and}
use cifsd.Base.{
  ℕ, suc, ◌+◌, Bool, true, false, not, ◌&&◌, ◌||◌, Option, none, some, List, [], ◌∷◌, ltb, ◌==◌,
  if◌then◌else◌,
}
use cifsd.Locks.{add64, sub64, lt_s64}
use cifsd.Oplock.{OpInfo}
use cifsd.Oplock.Break.{Event}
use cifsd.Oplock.BreakAll.{Owner, oplocks_of, smb_break_all_lev_ii_oplock}

-- READ and WRITE
pub data Access : Type 0 where
  reads writes : Access

pub data FlType : Type 0 where
  f_rdlck f_wrlck f_unlck : FlType

-- struct file_lock of the kernel
pub record FileLock : Type 0 where
  pub fl_owner : ℕ
  pub fl_file : ℕ
  pub fl_type : FlType
  pub fl_start : ℕ
  pub fl_end : ℕ

pub forbids : ℕ → Access → FileLock → Bool
forbids filp type l = elim l.fl_type [
  | f_rdlck ↦ elim type [ reads ↦ false | writes ↦ true ]
  | f_wrlck ↦ not (l.fl_file == filp)
  | f_unlck ↦ false
]

-- One turn of the loop.
pub stops : ℕ → ℕ → ℕ → Access → FileLock → Bool
unfolding forbids
stops filp start end type l =
    if filp == l.fl_owner
    then false
    else (not (lt_s64 l.fl_end start) && not (lt_s64 end l.fl_start)) && forbids filp type l

-- `true` is an error; the locks are those of the inode.
pub check_lock_range : List FileLock → ℕ → ℕ → ℕ → Access → Bool
unfolding stops
check_lock_range [] filp start end type = false
check_lock_range (l ∷ rest) filp start end type =
    stops filp start end type l || check_lock_range rest filp start end type

-- struct srv_copychunk
pub record Chunk : Type 0 where
  pub source_offset : ℕ
  pub target_offset : ℕ
  pub size : ℕ

pub record OpenFile : Type 0 where
  pub filp : ℕ
  pub daccess : ℕ
  pub is_stream : Bool
  pub locks : List FileLock

pub data CopyStatus : Type 0 where
  copied eacces ebadf eagain e2big not_copied : CopyStatus

pub record Written : Type 0 where
  pub status : CopyStatus
  pub chunk_count_written : ℕ
  pub total_size_written : ℕ

pub end_of : ℕ → ℕ → ℕ
end_of offset len = sub64 (add64 offset len) 1

pub is_locked : OpenFile → OpenFile → Chunk → Bool
unfolding check_lock_range end_of
is_locked src dst c =
    check_lock_range src.locks src.filp c.source_offset (end_of c.source_offset c.size) reads
    || check_lock_range dst.locks dst.filp c.target_offset (end_of c.target_offset c.size) writes

-- The first loop.
pub any_locked : OpenFile → OpenFile → List (Chunk × Option ℕ) → Bool
unfolding is_locked
any_locked src dst [] = false
any_locked src dst ((c, answer) ∷ rest) = is_locked src dst c || any_locked src dst rest

pub count_chunk : ℕ → Written → Written
count_chunk n w = record {
  status = w.status;
  chunk_count_written = suc w.chunk_count_written;
  total_size_written = n + w.total_size_written;
}

abbrev pub stopped_with : CopyStatus → Written
stopped_with status = record { status = status; chunk_count_written = 0; total_size_written = 0 }

-- The second loop. The results of the later turns are added to the one of this.
pub copy_chunks : ℕ → List (Chunk × Option ℕ) → Written
unfolding count_chunk
copy_chunks src_file_size [] = stopped_with copied
copy_chunks src_file_size ((c, none) ∷ rest) =
    if ltb src_file_size (add64 c.source_offset c.size)
    then stopped_with e2big
    else stopped_with not_copied
copy_chunks src_file_size ((c, some n) ∷ rest) =
    let later = copy_chunks src_file_size rest in
    if ltb src_file_size (add64 c.source_offset c.size)
    then stopped_with e2big
    else count_chunk n later

pub may_read : OpenFile → Bool
may_read f = not (bit_and f.daccess 0x92000021 == 0)

pub may_write : OpenFile → Bool
may_write f = not (bit_and f.daccess 0x52000006 == 0)

-- The copy, and the oplocks of the target behind it.
pub cifsd_vfs_copy_file_ranges :
    Bool
    → Option Owner
    → List (OpInfo × List Event)
    → OpenFile
    → OpenFile
    → ℕ
    → List (Chunk × Option ℕ)
    → Written × List OpInfo
unfolding any_locked copy_chunks may_read may_write
cifsd_vfs_copy_file_ranges oplocks_enable own os src dst src_file_size chunks =
    if not (may_read src)
    then (stopped_with eacces, oplocks_of os)
    else if not (may_write dst)
    then (stopped_with eacces, oplocks_of os)
    else if src.is_stream || dst.is_stream
    then (stopped_with ebadf, oplocks_of os)
    else (
      if any_locked src dst chunks then stopped_with eagain else copy_chunks src_file_size chunks,
      if oplocks_enable then smb_break_all_lev_ii_oplock true own os else oplocks_of os,
    )
