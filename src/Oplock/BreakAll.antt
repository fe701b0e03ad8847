-- ===== src/Oplock/BreakAll.antt =====
-- smb_break_all_oplock of oplock.c: a truncation or a write takes the oplocks of all opens of an
-- inode away. What a holder does while the server waits for it is a list of events, as in a break.
pub mod Released
use cifsd.Base.{
  ℕ, ◌/◌, Bool, true, false, not, ◌&&◌, ◌||◌, Option, none, some, List, [], ◌∷◌, map, ltb, ◌==◌,
  if◌then◌else◌,
}
use cifsd.Oplock.{OpInfo, oplock_read, smb2_level_ii, is_smb2_write}
use cifsd.Oplock.Break.{Event, smb_send_oplock_break_notification}

pub truncating : Bool → OpInfo → OpInfo
truncating is_trunc o = record o { open_trunc = is_trunc }

-- A holder that closed its file has left the list.
pub keep_open : OpInfo × Bool → List OpInfo → List OpInfo
keep_open (o, closed) rest = if closed then rest else o ∷ rest

-- The newest oplock, if it is for writing; `true` tells that it was.
pub smb_break_all_write_oplock : Bool → List Event → List OpInfo → List OpInfo × Bool
unfolding truncating keep_open
smb_break_all_write_oplock is_trunc es [] = ([], false)
smb_break_all_write_oplock is_trunc es (o ∷ rest) =
    if is_smb2_write o.level
    then (keep_open (smb_send_oplock_break_notification (truncating is_trunc o) es) rest, true)
    else (o ∷ rest, false)

-- The lease of the open that causes the break: its client and its key.
pub record Owner : Type 0 where
  pub client_guid : ℕ
  pub lease_key : ℕ

pub is_own : Option Owner → OpInfo → Bool
is_own none o = false
is_own (some w) o =
    o.is_lease && (w.client_guid == o.client_guid && w.lease_key == o.o_lease.lease_key)

-- A level or a lease that is not for reading, or a lease that is being broken to none.
pub is_unexpected : OpInfo → Bool
is_unexpected o =
    if o.is_smb2
    then if o.is_lease && ltb 3 o.o_lease.state
      then true
      else if not (o.level == smb2_level_ii)
      then true
      else o.is_lease && (o.o_lease.new_state == 0 && not (o.breaking_cnt == 0))
    else not (o.level == oplock_read)

-- One turn of the loop. A holder that closes its file meanwhile takes its entry out of the list.
pub break_reader : Bool → Option Owner → OpInfo → List Event → OpInfo
unfolding is_own is_unexpected truncating
break_reader is_trunc own o es =
    if is_unexpected o
    then o
    else if is_own own o
    then o
    else (smb_send_oplock_break_notification (truncating is_trunc o) es).0

-- Every entry, with what its holder does.
pub smb_break_all_lev_ii_oplock : Bool → Option Owner → List (OpInfo × List Event) → List OpInfo
unfolding break_reader
smb_break_all_lev_ii_oplock is_trunc own [] = []
smb_break_all_lev_ii_oplock is_trunc own ((o, es) ∷ rest) =
    break_reader is_trunc own o es ∷ smb_break_all_lev_ii_oplock is_trunc own rest

abbrev pub oplocks_of : List (OpInfo × List Event) → List OpInfo
oplocks_of [] = []
oplocks_of ((o, es) ∷ rest) = o ∷ oplocks_of rest

pub first_events : List (OpInfo × List Event) → List Event
first_events [] = []
first_events ((o, es) ∷ rest) = es

-- The second walk, if the newest oplock was not for writing.
pub then_readers : Option Owner → List (OpInfo × List Event) → List OpInfo × Bool → List OpInfo
then_readers own os (after, wrote) =
    if wrote then after else smb_break_all_lev_ii_oplock true own os

pub smb_break_all_oplock : Option Owner → List (OpInfo × List Event) → List OpInfo
unfolding smb_break_all_write_oplock first_events then_readers
smb_break_all_oplock own os =
    then_readers own os (smb_break_all_write_oplock true (first_events os) (oplocks_of os))
