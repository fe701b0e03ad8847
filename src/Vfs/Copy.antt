-- ===== src/Vfs/Copy.antt =====
-- What a server-side copy has done when it returns: cifsd_vfs_copy_file_ranges of vfs.c.
use cifsd.Base.{
  ◌∙◌, sym, ℕ, zero, suc, ◌+◌, ◌≡◌, ◌≢◌, refl, ap, Bool, true, false, ◌||◌, Option, none, some,
  List, [], ◌∷◌, ltb, arith, length, All, Bool-cases, inl, inr, if◌then◌else◌, ◌⊎◌, ◌↔◌,
}
use cifsd.Locks.{add64}
use cifsd.Oplock.{OpInfo}
use cifsd.Oplock.Break.{Event}
use cifsd.Oplock.BreakAll.{Owner}
use cifsd.Vfs.{
  Access, reads, writes, FileLock, stops, check_lock_range, end_of, Chunk, OpenFile, CopyStatus,
  copied, eacces, ebadf, eagain, Written, is_locked, any_locked, count_chunk, stopped_with,
  copy_chunks, may_read, may_write, cifsd_vfs_copy_file_ranges,
}

-- What the first chunks gave, `n` of them.
abbrev pub sum_first : ℕ → List (Chunk × Option ℕ) → ℕ
sum_first zero chunks = 0
sum_first (suc n) [] = 0
sum_first (suc n) ((c, none) ∷ rest) = 0
sum_first (suc n) ((c, some k) ∷ rest) = k + sum_first n rest

-- How many chunks stand before the first one that goes beyond the source or that the kernel does not copy.
pub leading : ℕ → List (Chunk × Option ℕ) → ℕ
leading size [] = 0
leading size ((c, none) ∷ rest) = 0
leading size ((c, some k) ∷ rest) =
    let later = leading size rest in
    if ltb size (add64 c.source_offset c.size) then 0 else suc later

total_right :
    (size : ℕ) (chunks : List (Chunk × Option ℕ))
    → (copy_chunks size chunks).total_size_written
      ≡ sum_first (copy_chunks size chunks).chunk_count_written chunks
unfolding copy_chunks count_chunk
total_right size [] = refl
total_right size ((c, none) ∷ rest) = elim (Bool-cases (ltb size (add64 c.source_offset c.size))) [
  | inl big ↦ rw big refl
  | inr fits ↦ rw fits refl
]
total_right size ((c, some k) ∷ rest) =
    elim (Bool-cases (ltb size (add64 c.source_offset c.size))) [
      | inl big ↦ rw big refl
      | inr fits ↦ rw fits (ap (λ t. k + t) (total_right size rest))
    ]

count_right :
    (size : ℕ) (chunks : List (Chunk × Option ℕ))
    → (copy_chunks size chunks).chunk_count_written ≡ leading size chunks
unfolding copy_chunks count_chunk leading
count_right size [] = refl
count_right size ((c, none) ∷ rest) = elim (Bool-cases (ltb size (add64 c.source_offset c.size))) [
  | inl big ↦ rw big refl
  | inr fits ↦ rw fits refl
]
count_right size ((c, some k) ∷ rest) =
    elim (Bool-cases (ltb size (add64 c.source_offset c.size))) [
      | inl big ↦ rw big refl
      | inr fits ↦ rw fits (ap suc (count_right size rest))
    ]

all_counted :
    (size : ℕ) (chunks : List (Chunk × Option ℕ))
    → (copy_chunks size chunks).status ≡ copied
    → (copy_chunks size chunks).chunk_count_written ≡ length chunks
unfolding copy_chunks count_chunk
all_counted size [] h = refl
all_counted size ((c, none) ∷ rest) h = ground arith
all_counted size ((c, some k) ∷ rest) h = ground (arith, all_counted size rest)

all_copied :
    (size : ℕ) (chunks : List (Chunk × Option ℕ))
    → leading size chunks ≡ length chunks
    → (copy_chunks size chunks).status ≡ copied
unfolding copy_chunks count_chunk leading
all_copied size [] h = refl
all_copied size ((c, none) ∷ rest) h = absurd (ground arith)
all_copied size ((c, some k) ∷ rest) h = ground (arith, all_copied size rest)

-- No lock stands in the way of a range.
pub Clear : List FileLock → ℕ → ℕ → ℕ → Access → Type 0
Clear locks filp start end type = All (λ l. stops filp start end type l ≡ false) locks

check-Clear :
    (locks : List FileLock) (filp start end : ℕ) (type : Access)
    → check_lock_range locks filp start end type ≡ false
    → Clear locks filp start end type
unfolding check_lock_range Clear
check-Clear [] filp start end type h = tt
check-Clear (l ∷ rest) filp start end type h =
    (ground arith, check-Clear rest filp start end type (ground arith))

Clear-check :
    (locks : List FileLock) (filp start end : ℕ) (type : Access)
    → Clear locks filp start end type
    → check_lock_range locks filp start end type ≡ false
unfolding check_lock_range Clear
Clear-check [] filp start end type h = refl
Clear-check (l ∷ rest) filp start end type h = rw h.0 (Clear-check rest filp start end type h.1)

-- No lock stands in the way of reading the chunk from the source or of writing it to the target.
pub IsFree : OpenFile → OpenFile → Chunk × Option ℕ → Type 0
IsFree src dst (c, answer) =
    Clear src.locks src.filp c.source_offset (end_of c.source_offset c.size) reads
    × Clear dst.locks dst.filp c.target_offset (end_of c.target_offset c.size) writes

any_locked-IsFree :
    (src dst : OpenFile) (chunks : List (Chunk × Option ℕ))
    → any_locked src dst chunks ≡ false
    → All (IsFree src dst) chunks
unfolding any_locked is_locked IsFree
any_locked-IsFree src dst [] h = tt
any_locked-IsFree src dst ((c, answer) ∷ rest) h = (
  (
    check-Clear src.locks src.filp c.source_offset (end_of c.source_offset c.size) reads
        (ground arith),
    check-Clear dst.locks dst.filp c.target_offset (end_of c.target_offset c.size) writes
        (ground arith),
  ),
  any_locked-IsFree src dst rest (ground arith),
)

IsFree-any_locked :
    (src dst : OpenFile) (chunks : List (Chunk × Option ℕ))
    → All (IsFree src dst) chunks
    → any_locked src dst chunks ≡ false
unfolding any_locked is_locked IsFree
IsFree-any_locked src dst [] h = refl
IsFree-any_locked src dst ((c, answer) ∷ rest) h =
    rw
      (
        Clear-check src.locks src.filp c.source_offset (end_of c.source_offset c.size) reads h.0.0,
        Clear-check dst.locks dst.filp c.target_offset (end_of c.target_offset c.size) writes h.0.1,
      )
      (IsFree-any_locked src dst rest h.1)

-- The rights that a copy needs, and no lock of others on any of its ranges.
pub record MayCopy (src dst : OpenFile) (chunks : List (Chunk × Option ℕ)) : Type 0 where
  pub readable : may_read src ≡ true
  pub writable : may_write dst ≡ true
  pub plain : (src.is_stream || dst.is_stream) ≡ false
  pub free : All (IsFree src dst) chunks

-- A copy that is refused gives nothing; another one gives what the chunks before the first that fails give,
-- and is a success exactly if that is all of them.
pub IsPrefix : OpenFile → OpenFile → ℕ → List (Chunk × Option ℕ) → Written → Type 0
IsPrefix src dst size chunks w =
    ((MayCopy src dst chunks → ⊥)
      × (w.status ≢ copied)
      × (w.chunk_count_written ≡ 0)
      × (w.total_size_written ≡ 0))
    ⊎ (MayCopy src dst chunks
        × (w.chunk_count_written ≡ leading size chunks)
        × (w.total_size_written ≡ sum_first (leading size chunks) chunks)
        × ((w.status ≡ copied) ↔ (leading size chunks ≡ length chunks)))

module _ (src dst : OpenFile) (size : ℕ) (chunks : List (Chunk × Option ℕ)) where
  refused :
      (status : CopyStatus)
      → status ≢ copied
      → (MayCopy src dst chunks → ⊥)
      → IsPrefix src dst size chunks (stopped_with status)
  unfolding IsPrefix
  refused status n m = inl (m, n, refl, refl)

  copied-IsPrefix : MayCopy src dst chunks → IsPrefix src dst size chunks (copy_chunks size chunks)
  unfolding IsPrefix
  copied-IsPrefix m =
      let count = count_right size chunks in
      inr (
        m,
        count,
        total_right size chunks ∙ ap (λ n. sum_first n chunks) count,
        (λ e. sym count ∙ all_counted size chunks e, all_copied size chunks),
      )

  -- A copy without the rights or past a lock copies nothing and fails. Any other copies the chunks in their
  -- order until one goes beyond the source or the kernel fails, and its counts are those of the chunks before;
  -- it succeeds exactly if they are all chunks.
  pub copy_file_ranges-IsPrefix :
      (oplocks_enable : Bool) (own : Option Owner) (os : List (OpInfo × List Event))
      → IsPrefix src dst size chunks
          (cifsd_vfs_copy_file_ranges oplocks_enable own os src dst size chunks).0
  unfolding cifsd_vfs_copy_file_ranges
  copy_file_ranges-IsPrefix oplocks_enable own os = elim (Bool-cases (may_read src)) [
    | inr no_read ↦
        rw no_read
          (refused eacces (λ e. ground (arith, e)) (λ m. ground (arith, m.readable, no_read)))
    | inl read ↦ elim (Bool-cases (may_write dst)) [
      | inr no_write ↦
          rw (read, no_write)
            (refused eacces (λ e. ground (arith, e)) (λ m. ground (arith, m.writable, no_write)))
      | inl write ↦ elim (Bool-cases (src.is_stream || dst.is_stream)) [
        | inl stream ↦
            rw (read, write, stream)
              (refused ebadf (λ e. ground (arith, e)) (λ m. ground (arith, m.plain, stream)))
        | inr plain ↦ elim (Bool-cases (any_locked src dst chunks)) [
          | inl locked ↦
              rw (read, write, plain, locked)
                (refused eagain (λ e. ground (arith, e))
                  (λ m. ground (arith, IsFree-any_locked src dst chunks m.free, locked)))
          | inr free ↦
              rw (read, write, plain, free)
                (copied-IsPrefix (record {
                  readable = read;
                  writable = write;
                  plain = plain;
                  free = any_locked-IsFree src dst chunks free;
                }))
        ]
      ]
    ]
  ]
