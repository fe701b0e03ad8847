-- ===== src/ShareMode.antt =====
-- cifsd_smb_check_shared_mode of smb_common.c: may a new open of a file stand beside the earlier
-- ones? An open is a `struct cifsd_file`, its pointers to a file and an inode are numbers, and a
-- mask of several access bits is the disjunction of their tests.
pub mod Compatible
pub mod Order
mod Tests
use cifsd.Base.{
  is_some, ℕ, Bool, true, false, not, ◌&&◌, ◌||◌, Option, none, some, List, [], ◌∷◌, ◌==◌,
  if◌then◌else◌, test_bit,
}
use mathlib.Core.Bool.{xor}
use text.Mathlib.Text.{◌==◌ as str_eq}
use Prim.Native.String.{String}

pub record File : Type 0 where
  pub filp : ℕ
  pub inode : ℕ
  pub stream : Option String
  pub daccess : ℕ
  pub saccess : ℕ
  pub is_durable : Bool
  pub attrib_only : Bool

pub cifsd_stream_fd : File → Bool
cifsd_stream_fd fp = is_some fp.stream

-- The access that a mask asks for, and the sharing that another permits.
module _ (x : ℕ) where
  pub wants_all : Bool
  wants_all = test_bit x 28 || test_bit x 25

  pub wants_delete : Bool
  unfolding wants_all
  wants_delete = test_bit x 16 || wants_all

  pub wants_read : Bool
  unfolding wants_all
  wants_read = test_bit x 5 || (test_bit x 0 || (test_bit x 31 || wants_all))

  pub wants_write : Bool
  unfolding wants_all
  wants_write = test_bit x 1 || (test_bit x 2 || (test_bit x 30 || wants_all))

  pub shares_read : Bool
  shares_read = test_bit x 0

  pub shares_write : Bool
  shares_write = test_bit x 1

  pub shares_delete : Bool
  shares_delete = test_bit x 2

pub data SharedModeError : Type 0 where
  share_delete_error share_read_error share_write_error : SharedModeError
  file_read_error file_write_error file_delete_error : SharedModeError

-- What the body of the loop does at one earlier open.
pub data Verdict : Type 0 where
  skip : Verdict
  drop_durable : Verdict
  deny : SharedModeError → Verdict

pub other_stream : Option String → Option String → Bool
other_stream (some a) (some b) = not (str_eq a b)
other_stream _ _ = false

pub same_flag : Bool → Bool → Bool
same_flag true b = b
same_flag false b = not b

-- The six comparisons of access with sharing, in their order.
pub compare_modes : File → File → Verdict
compare_modes prev curr =
    if not (shares_delete prev.saccess) && wants_delete curr.daccess
    then deny share_delete_error
    else if cifsd_stream_fd prev && not (cifsd_stream_fd curr)
    then skip
    else if not (shares_read prev.saccess) && wants_read curr.daccess
    then deny share_read_error
    else if not (shares_write prev.saccess) && wants_write curr.daccess
    then deny share_write_error
    else if wants_read prev.daccess && not (shares_read curr.saccess)
    then deny file_read_error
    else if wants_write prev.daccess && not (shares_write curr.saccess)
    then deny file_write_error
    else if wants_delete prev.daccess && not (shares_delete curr.saccess)
    then deny file_delete_error
    else skip

-- `filp` and `inode` are those of the file that is being opened.
pub verdict : ℕ → ℕ → File → File → Verdict
verdict filp inode curr prev =
    if not (inode == prev.inode)
    then skip
    else if filp == prev.filp
    then skip
    else if other_stream prev.stream curr.stream
    then skip
    else if prev.is_durable
    then drop_durable
    else if not (same_flag prev.attrib_only curr.attrib_only)
    then skip
    else compare_modes prev curr

-- The loop, with the earlier opens as it leaves them. The result says whether it ended in -EPERM.
pub cifsd_smb_check_shared_mode : ℕ → ℕ → File → List File → List File × Bool
cifsd_smb_check_shared_mode filp inode curr [] = ([], false)
cifsd_smb_check_shared_mode filp inode curr (prev ∷ rest) =
    let later = cifsd_smb_check_shared_mode filp inode curr rest in
    elim (verdict filp inode curr prev) [
      | skip ↦ (prev ∷ later.0, later.1)
      | drop_durable ↦ (record prev { is_durable = false } ∷ later.0, later.1)
      | deny e ↦ (prev ∷ rest, true)
    ]
