-- ===== src/Oplock.antt =====
-- oplock.c and oplock.h, with the acknowledgement handlers of smb2pdu.c: the oplock or lease of one
-- open of a file. A GUID or a key of 16 bytes is a number; reference counts are not modelled.
pub mod Ack
pub mod Break
pub mod Owner
pub mod Grant
pub mod LeaseTable
pub mod BreakAll
mod TableTests
mod Tests
use cifsd.Base.{
  ℕ, ◌+◌, ◌-◌, Bool, true, false, not, ◌&&◌, ◌||◌, Option, none, some, ◌==◌, if◌then◌else◌,
  test_bit, set_bit,
}

-- SMB oplock levels
abbrev pub oplock_none : ℕ
oplock_none = 0

abbrev pub oplock_exclusive : ℕ
oplock_exclusive = 1

abbrev pub oplock_batch : ℕ
oplock_batch = 2

abbrev pub oplock_read : ℕ
oplock_read = 3

-- SMB2 oplock levels
abbrev pub smb2_level_none : ℕ
smb2_level_none = 0x00

abbrev pub smb2_level_ii : ℕ
smb2_level_ii = 0x01

abbrev pub smb2_level_exclusive : ℕ
smb2_level_exclusive = 0x08

abbrev pub smb2_level_batch : ℕ
smb2_level_batch = 0x09

-- Oplock states
pub data OpState : Type 0 where
  idle ack_wait closing : OpState

pub record Lease : Type 0 where
  pub lease_key : ℕ
  pub state : ℕ
  pub new_state : ℕ
  pub flags : ℕ
  pub duration : ℕ

-- `o_lease` has a meaning if `is_lease` is set.
pub record OpInfo : Type 0 where
  pub client_guid : ℕ
  pub is_smb2 : Bool
  pub level : ℕ
  pub op_state : OpState
  pub breaking_cnt : ℕ
  pub is_lease : Bool
  pub o_lease : Lease
  pub open_trunc : Bool

pub record LeaseCtx : Type 0 where
  pub lease_key : ℕ
  pub req_state : ℕ
  pub flags : ℕ
  pub duration : ℕ

-- The bits of a lease state
abbrev pub reads : ℕ → Bool
reads s = test_bit s 0

abbrev pub handles : ℕ → Bool
handles s = test_bit s 1

abbrev pub writes : ℕ → Bool
writes s = test_bit s 2

abbrev pub is_smb2_write : ℕ → Bool
is_smb2_write l = l == smb2_level_batch || l == smb2_level_exclusive

abbrev pub is_smb1_write : ℕ → Bool
is_smb1_write l = l == oplock_exclusive || l == oplock_batch

-- A conversion that fails with -EINVAL leaves its argument as it is.
abbrev pub Conversion : Type 0
Conversion = OpInfo → Option OpInfo

-- The level falls, and a lease takes its new state.
lower : ℕ → OpInfo → OpInfo
lower l o = record o {
  level = l;
  o_lease = if o.is_lease then record lease { state = lease.new_state } else lease;
}
  where
    lease : Lease
    lease = o.o_lease

pub opinfo_write_to_read : Conversion
unfolding lower
opinfo_write_to_read o =
    if o.is_smb2
    then if is_smb2_write o.level then some (lower smb2_level_ii o) else none
    else if is_smb1_write o.level
    then some (record o { level = oplock_read })
    else none

pub opinfo_read_handle_to_read : Conversion
opinfo_read_handle_to_read o =
    some (record o { level = smb2_level_ii; o_lease = record lease { state = lease.new_state } })
  where
    lease : Lease
    lease = o.o_lease

pub opinfo_write_to_none : Conversion
unfolding lower
opinfo_write_to_none o =
    if o.is_smb2
    then if is_smb2_write o.level then some (lower smb2_level_none o) else none
    else if is_smb1_write o.level
    then some (record o { level = oplock_none })
    else none

pub opinfo_read_to_none : Conversion
unfolding lower
opinfo_read_to_none o =
    if o.is_smb2
    then if o.level == smb2_level_ii then some (lower smb2_level_none o) else none
    else if o.level == oplock_read
    then some (record o { level = oplock_none })
    else none

pub lease_read_to_write : Conversion
lease_read_to_write o =
    if reads lease.state
    then some (record o {
      level = if handles lease.state then smb2_level_batch else smb2_level_exclusive;
      o_lease = record lease { new_state = 0; state = set_bit lease.state 2 };
    })
    else none
  where
    lease : Lease
    lease = o.o_lease

-- The level of a lease that is granted anew; a state with no bit leaves the level.
pub lease_level : ℕ → ℕ → ℕ
lease_level s old =
    if handles s
    then if writes s then smb2_level_batch else smb2_level_ii
    else if writes s
    then smb2_level_exclusive
    else if reads s
    then smb2_level_ii
    else old

pub lease_none_upgrade : ℕ → Conversion
unfolding lease_level
lease_none_upgrade new_state o =
    if lease.state == 0
    then some (record o {
      level = lease_level new_state o.level;
      o_lease = record lease { new_state = 0; state = new_state };
    })
    else none
  where
    lease : Lease
    lease = o.o_lease

-- The level that stands for a requested lease state; 0 if there is none.
unfoldable pub smb2_map_lease_to_oplock : ℕ → ℕ
smb2_map_lease_to_oplock s =
    if s == 7
    then smb2_level_batch
    else if not (s == 4) && writes s
    then if handles s then 0 else smb2_level_exclusive
    else if reads s
    then smb2_level_ii
    else 0
