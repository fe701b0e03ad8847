-- ===== src/Oplock/Ack.antt =====
-- The handlers of a client's acknowledgement: smb20_oplock_break and smb21_lease_break of
-- smb2pdu.c. The lookups of the file and of its oplock stand before them, as an `Option`.
pub mod Laws
pub mod Release
use cifsd.Base.{
  ℕ, ◌-◌, ◌*◌, ◌/◌, Bool, true, false, not, ◌&&◌, ◌||◌, Option, none, some, ◌==◌, if◌then◌else◌,
  leb,
}
use cifsd.Oplock.{
  OpState, idle, ack_wait, closing, Lease, OpInfo, Conversion, smb2_level_none, smb2_level_ii,
  is_smb2_write, reads, handles, writes, opinfo_write_to_read, opinfo_read_handle_to_read,
  opinfo_write_to_none, opinfo_read_to_none,
}

-- The `Status` of a refusal
pub data Status : Type 0 where
  success : Status
  file_closed invalid_oplock_protocol unsuccessful : Status
  invalid_device_state request_not_accepted : Status

-- The answer carries the new level or the new lease state.
pub data Response : Type 0 where
  granted : ℕ → Response
  refused : Status → Response

pub data Change : Type 0 where
  write_to_read read_handle_to_read write_to_none read_to_none unknown : Change

unfoldable pub is_idle : OpState → Bool
is_idle idle = true
is_idle _ = false

-- The conversion of a `switch` case; the default leaves `ret` 0.
convert : Change → Conversion
convert write_to_read o = opinfo_write_to_read o
convert read_handle_to_read o = opinfo_read_handle_to_read o
convert write_to_none o = opinfo_write_to_none o
convert read_to_none o = opinfo_read_to_none o
convert unknown o = some o

-- `oplock_change_type` and `err` for a level that is held and one that is asked for.
oplock_change : ℕ → ℕ → Change × Status
oplock_change level req =
    if is_smb2_write level && not is_down
    then (write_to_none, invalid_oplock_protocol)
    else if level == smb2_level_ii && not (req == smb2_level_none)
    then (read_to_none, invalid_oplock_protocol)
    else if is_down
    then (
      if is_smb2_write level && req == smb2_level_ii
          then write_to_read
          else if is_smb2_write level && req == smb2_level_none
          then write_to_none
          else if level == smb2_level_ii && req == smb2_level_none
          then read_to_none
          else unknown,
      invalid_device_state,
    )
    else (unknown, success)
  where
    is_down : Bool
    is_down = req == smb2_level_ii || req == smb2_level_none

rsp_oplevel : Change → ℕ
rsp_oplevel write_to_read = smb2_level_ii
rsp_oplevel _ = smb2_level_none

-- What follows the `switch`: the waiter is woken, and a failed conversion is an error.
finish : OpInfo → Option OpInfo → Status → (OpInfo → ℕ) → OpInfo × Response
finish o none err answer = (record o { op_state = idle }, refused err)
finish o (some o') err answer = (record o' { op_state = idle }, granted (answer o'))

-- The body of smb20_oplock_break behind its lookups.
pub oplock_break : OpInfo → ℕ → OpInfo × Response
unfolding is_idle convert oplock_change rsp_oplevel finish
oplock_break o req =
    if o.level == smb2_level_none
    then (o, refused invalid_oplock_protocol)
    else if is_idle o.op_state
    then (o, refused unsuccessful)
    else finish o (convert change.0 o) change.1 (λ _. rsp_oplevel change.0)
  where
    change : Change × Status
    change = oplock_change o.level req

-- No file, a file without an oplock, or its oplock.
pub smb20_oplock_break : Option (Option OpInfo) → ℕ → Option OpInfo × Response
unfolding oplock_break
smb20_oplock_break none req = (none, refused file_closed)
smb20_oplock_break (some none) req = (none, refused invalid_oplock_protocol)
smb20_oplock_break (some (some o)) req = let (o', r) = oplock_break o req in (some o', r)

-- 0 accepts the state, and may take it for the new state.
pub check_lease_state : Lease → ℕ → Option Lease
check_lease_state l req =
    if l.new_state == 3 && not (writes req)
    then some (record l { new_state = req })
    else if l.new_state == req
    then some l
    else none

-- `lease_change_type` and `err`. Another bit than those of reading and handles is a bit of `req / 4`.
lease_change : ℕ → ℕ → Change × Status
lease_change state req =
    if not (req / 4 == 0)
    then (if writes state then write_to_none else read_to_none, invalid_oplock_protocol)
    else if state == 1 && not (req == 0)
    then (read_to_none, invalid_oplock_protocol)
    else (
      if req == 0
          then if writes state then write_to_none else read_to_none
          else if reads req
          then if writes state then write_to_read else read_handle_to_read
          else unknown,
      invalid_device_state,
    )

-- What smb21_lease_break does with an expected state.
acknowledge_lease : OpInfo → ℕ → OpInfo × Response
unfolding convert lease_change finish
acknowledge_lease o req =
    if o.breaking_cnt == 0
    then (o, refused unsuccessful)
    else finish taken (convert change.0 taken) change.1 (λ q. q.o_lease.state)
  where
    taken : OpInfo
    taken = record o { breaking_cnt = o.breaking_cnt - 1 }

    change : Change × Status
    change = lease_change o.o_lease.state req

-- The body of smb21_lease_break behind its lookup.
pub lease_break : OpInfo → ℕ → OpInfo × Response
unfolding is_idle check_lease_state acknowledge_lease
lease_break o req =
    if is_idle o.op_state
    then (o, refused unsuccessful)
    else elim (check_lease_state o.o_lease req) [
      | none ↦ (o, refused request_not_accepted)
      | some l ↦ acknowledge_lease (record o { o_lease = l }) req
    ]

pub smb21_lease_break : Option OpInfo → ℕ → Option OpInfo × Response
unfolding lease_break
smb21_lease_break none req = (none, refused unsuccessful)
smb21_lease_break (some o) req = let (o', r) = lease_break o req in (some o', r)
