-- ===== src/Ids.antt =====
-- The ids of sessions and tree connects: mgmt/cifsd_ida.c. The kernel's IDA is a parameter.
pub mod Others
pub mod Reserved
pub mod Small
mod Tests
use cifsd.Base.{
  ℕ, zero, suc, ◌≡◌, ◌≢◌, ◌≤◌, ◌<◌, ◌⊎◌, Bool, true, false, Option, none, some, ◌==◌, if◌then◌else◌,
}

-- The operations of an IDA that are used, and whether an id is taken.
pub record Ida (I : Type 0) : Type 0 where
  pub ida_simple_get : I → ℕ → ℕ → Option (ℕ × I)
  pub ida_simple_remove : I → ℕ → I
  pub is_taken : I → ℕ → Bool

-- The documentation of ida_simple_get: an id that was free is taken, from `start` on, and below `end`
-- if that is not 0; no other id is touched. Removing an id frees it and no other.
pub record IdaLaws {I : Type 0} (ida : Ida I) : Type 0 where
  pub get_free :
      (t t' : I) (start end id : ℕ)
      → ida.ida_simple_get t start end ≡ some (id, t')
      → ida.is_taken t id ≡ false
  pub get_taken :
      (t t' : I) (start end id : ℕ)
      → ida.ida_simple_get t start end ≡ some (id, t')
      → ida.is_taken t' id ≡ true
  pub get_other :
      (t t' : I) (start end id other : ℕ)
      → ida.ida_simple_get t start end ≡ some (id, t')
      → other ≢ id
      → ida.is_taken t' other ≡ ida.is_taken t other
  pub get_range :
      (t t' : I) (start end id : ℕ)
      → ida.ida_simple_get t start end ≡ some (id, t')
      → (start ≤ id) × ((end ≡ 0) ⊎ (id < end))
  pub remove_free : (t : I) (id : ℕ) → ida.is_taken (ida.ida_simple_remove t id) id ≡ false
  pub remove_other :
      (t : I) (id other : ℕ)
      → other ≢ id
      → ida.is_taken (ida.ida_simple_remove t id) other ≡ ida.is_taken t other

-- An id or a negative error, with the table that is left, or a loop that has not ended.
pub data Acquired (I : Type 0) : Type 0 where
  acquired : ℕ → I → Acquired I
  no_id : I → Acquired I
  unfinished : Acquired I

module _ {I : Type 0} (ida : Ida I) where
  unfoldable pub acquire_id : I → ℕ → ℕ → Acquired I
  acquire_id t from to = elim (ida.ida_simple_get t from to) [
    | none ↦ no_id t
    | some (id, t') ↦ acquired id t'
  ]

  -- The `do` loop: an id that is reserved stays taken, and another one is asked for.
  unfoldable pub acquire_other : ℕ → I → ℕ → ℕ → Acquired I
  unfolding acquire_id
  acquire_other zero t from reserved = unfinished
  acquire_other (suc fuel) t from reserved = elim (acquire_id t from 0) [
    | acquired id t' ↦ elim (id == reserved) [
      | true ↦ acquire_other fuel t' from reserved
      | false ↦ acquired id t'
    ]
    | no_id t' ↦ no_id t'
    | unfinished ↦ unfinished
  ]

  pub cifds_acquire_smb1_tid : I → Acquired I
  cifds_acquire_smb1_tid t = acquire_id t 0 0xffff

  unfoldable pub cifds_acquire_smb2_tid : I → Acquired I
  unfolding acquire_other
  cifds_acquire_smb2_tid t = acquire_other 2 t 0 0xffff

  unfoldable pub cifds_acquire_smb1_uid : I → Acquired I
  cifds_acquire_smb1_uid t = acquire_id t 1 0xfffe

  pub cifds_acquire_smb2_uid : I → Acquired I
  unfolding acquire_other
  cifds_acquire_smb2_uid t = acquire_other 2 t 1 0xfffe

  unfoldable pub cifds_release_id : I → ℕ → I
  cifds_release_id t id = ida.ida_simple_remove t id
