-- ===== src/Oplock/Break.antt =====
-- smb_send_oplock_break_notification of oplock.c and what it calls. What the holder of the oplock
-- does while the server waits is a list of events; the end of the list is the timeout. The other
-- threads' own waits for `breaking_cnt` end with it at 0, and a wait is not interrupted.
pub mod Laws
pub mod LeaseLaws
use cifsd.Base.{
  ℕ, ◌+◌, Bool, true, false, not, ◌&&◌, ◌||◌, Option, none, some, List, [], ◌∷◌, ◌==◌,
  if◌then◌else◌,
}
use cifsd.Oplock.{
  OpState, idle, ack_wait, closing, Lease, OpInfo, oplock_none, oplock_read, smb2_level_none,
  smb2_level_ii, is_smb2_write, reads, handles, writes,
}
use cifsd.Oplock.Ack.{oplock_break, lease_break}

pub data Event : Type 0 where
  acknowledge : ℕ → Event
  acknowledge_lease : ℕ → Event
  close : Event

pub is_waiting : OpState → Bool
is_waiting ack_wait = true
is_waiting _ = false

-- The part of close_id_del_oplock that the waiter sees.
close_oplock : OpInfo → OpInfo
close_oplock o =
    if is_waiting o.op_state
    then record o { op_state = closing; breaking_cnt = if o.is_lease then 0 else o.breaking_cnt }
    else o

-- lookup_lease_in_table finds a lease while it breaks, and while it has handles or writing.
is_listed : OpInfo → Bool
is_listed o =
    o.is_lease && is_waiting o.op_state && (handles o.o_lease.state || writes o.o_lease.state)

pub respond : Event → OpInfo → OpInfo
respond (acknowledge level) o = (oplock_break o level).0
respond (acknowledge_lease state) o = if is_listed o then (lease_break o state).0 else o
respond close o = close_oplock o

time_out : OpInfo → OpInfo
time_out o = record o { level = smb2_level_none; op_state = idle }

time_out_lease : OpInfo → OpInfo
time_out_lease o = record o {
  level = smb2_level_none;
  op_state = idle;
  o_lease = if o.is_lease then record lease { state = 0 } else lease;
}
  where
    lease : Lease
    lease = o.o_lease

-- wait_event_interruptible_timeout until the state is idle or closing, with the events left over.
pub await : (OpInfo → OpInfo) → List Event → OpInfo → OpInfo × List Event
await expire [] o = (if is_waiting o.op_state then expire o else o, [])
await expire (e ∷ es) o =
    let later = await expire es (respond e o) in
    if is_waiting o.op_state then later else (o, e ∷ es)

-- smb1_oplock_break_notification
smb1_oplock_break_notification : OpInfo → Bool → List Event → OpInfo
smb1_oplock_break_notification o ack_required es =
    if ack_required
    then (await time_out es o).0
    else if o.level == oplock_read
    then record o { level = oplock_none }
    else o

smb2_oplock_break_notification : OpInfo → Bool → List Event → OpInfo
smb2_oplock_break_notification o ack_required es =
    if ack_required
    then (await time_out es o).0
    else if o.level == smb2_level_ii
    then record o { level = smb2_level_none }
    else o

smb2_break_lease_notification : OpInfo → Bool → List Event → OpInfo
smb2_break_lease_notification o ack_required es =
    if ack_required
    then record (await time_out_lease es o).0 { breaking_cnt = 0 }
    else if o.o_lease.state == 1
    then record o { level = smb2_level_none; o_lease = record lease { state = 0 } }
    else o
  where
    lease : Lease
    lease = o.o_lease

-- The state that a lease is to fall to.
break_target : Bool → ℕ → ℕ
break_target open_trunc state =
    if open_trunc
    then 0
    else if writes state
    then if handles state then 3 else 1
    else if handles state
    then 1
    else 0

count_break : OpInfo → OpInfo
count_break o = record o {
  breaking_cnt = if o.o_lease.state == 1 then o.breaking_cnt else o.breaking_cnt + 1;
}

-- A break that is under way comes first; the lease is then not broken to none at once.
sit_out : OpInfo → List Event → OpInfo × List Event
sit_out o es =
    if is_waiting o.op_state
    then (
      record (await time_out_lease es o).0 { open_trunc = false },
      (await time_out_lease es o).1,
    )
    else (o, es)

set_target : OpInfo → OpInfo
unfolding break_target
set_target o = record o {
  o_lease = record lease { new_state = break_target o.open_trunc lease.state };
  op_state = if writes lease.state || handles lease.state then ack_wait else o.op_state;
}
  where
    lease : Lease
    lease = o.o_lease

-- Before the notification of a lease.
prepare_lease : OpInfo → List Event → OpInfo × List Event
unfolding count_break sit_out set_target
prepare_lease o es = (set_target (sit_out (count_break o) es).0, (sit_out (count_break o) es).1)

-- Before the notification of an oplock.
prepare_oplock : OpInfo → OpInfo
prepare_oplock o = if is_smb2_write o.level then record o { op_state = ack_wait } else o

lease_needs_ack : OpInfo → Bool
lease_needs_ack o = not ((o.open_trunc && not (writes o.o_lease.state)) || o.o_lease.state == 1)

-- The notification, by the protocol and the kind.
notify : OpInfo → List Event → OpInfo
notify o es =
    if o.is_smb2
    then if o.is_lease
      then smb2_break_lease_notification o (lease_needs_ack o) es
      else smb2_oplock_break_notification o (is_smb2_write o.level) es
    else smb1_oplock_break_notification o (is_smb2_write o.level) es

is_closing : OpState → Bool
is_closing closing = true
is_closing _ = false

-- -ENOENT, shown by `true`, tells that the holder closed its file.
report : OpInfo → OpInfo × Bool
report o = if is_closing o.op_state then (record o { op_state = idle }, true) else (o, false)

pub smb_send_oplock_break_notification : OpInfo → List Event → OpInfo × Bool
smb_send_oplock_break_notification o es =
    if o.is_lease
    then report (notify (prepare_lease o es).0 (prepare_lease o es).1)
    else report (notify (prepare_oplock o) es)
