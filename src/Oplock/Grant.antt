-- ===== src/Oplock/Grant.antt =====
-- smb_grant_oplock of oplock.c: the oplock or the lease of a new open, beside those of the earlier
-- opens of its inode. Memory is there, and the list changes under the server only by what the
-- holder of a breaking oplock does.
pub mod Exclusive
pub mod Hidden
use cifsd.Base.{
  is_some, ℕ, ◌+◌, ◌-◌, Bool, true, false, not, ◌&&◌, ◌||◌, Option, none, some, List, [], ◌∷◌, map,
  ltb, ◌==◌, if◌then◌else◌,
}
use cifsd.Oplock.{
  OpState, idle, Lease, OpInfo, LeaseCtx, oplock_none, oplock_exclusive, oplock_batch, oplock_read,
  smb2_level_none, smb2_level_ii, smb2_level_exclusive, smb2_level_batch, is_smb2_write, reads,
  handles, writes, lease_read_to_write, lease_none_upgrade,
}
use cifsd.Oplock.Owner.{same_client_has_lease}
use cifsd.Oplock.Break.{Event, smb_send_oplock_break_notification}

-- struct cifsd_inode, as far as oplocks go; the newest oplock stands first.
pub record Inode : Type 0 where
  pub op_list : List OpInfo
  pub op_count : ℕ

-- The new open and its connection; `attr_fp` is ATTR_FP.
pub record Opening : Type 0 where
  pub client_guid : ℕ
  pub is_smb2 : Bool
  pub is_dir : Bool
  pub attr_fp : Bool
  pub req_op_level : ℕ
  pub lctx : Option LeaseCtx
  pub share_failed : Bool

pub data Outcome : Type 0 where
  no_oplock share_error : Outcome
  granted : OpInfo → Outcome

no_lease : Lease
no_lease = record { lease_key = 0; state = 0; new_state = 0; flags = 0; duration = 0 }

alloc_lease : LeaseCtx → Lease
alloc_lease c = record {
  lease_key = c.lease_key;
  state = c.req_state;
  new_state = 0;
  flags = c.flags;
  duration = c.duration;
}

lease_of : Option LeaseCtx → Lease
unfolding alloc_lease no_lease
lease_of none = no_lease
lease_of (some c) = alloc_lease c

-- alloc_opinfo, and alloc_lease where there is a lease context.
pub alloc_opinfo : Opening → OpInfo
unfolding lease_of
alloc_opinfo r = record {
  client_guid = r.client_guid;
  is_smb2 = r.is_smb2;
  level = oplock_none;
  op_state = idle;
  breaking_cnt = 0;
  is_lease = is_some r.lctx;
  o_lease = lease_of r.lctx;
  open_trunc = false;
}

-- The state that a grant writes into the lease, if there is a lease context.
with_state : Option LeaseCtx → (LeaseCtx → ℕ) → OpInfo → OpInfo
with_state none s o = o
with_state (some c) s o = record o {
  o_lease = record lease { state = s c; lease_key = c.lease_key };
}
  where
    lease : Lease
    lease = o.o_lease

grant_write_oplock : OpInfo → ℕ → Option LeaseCtx → OpInfo
unfolding with_state
grant_write_oplock o req c =
    with_state c (λ l. l.req_state)
      (record o {
        level =
            if o.is_smb2
            then if req == smb2_level_batch then smb2_level_batch else smb2_level_exclusive
            else if req == 4
            then oplock_batch
            else oplock_exclusive;
      })

grant_read_oplock : OpInfo → Option LeaseCtx → OpInfo
unfolding with_state
grant_read_oplock o c =
    with_state c (λ l. if handles l.req_state then 3 else 1)
      (record o { level = if o.is_smb2 then smb2_level_ii else oplock_read })

grant_none_oplock : OpInfo → Option LeaseCtx → OpInfo
unfolding with_state
grant_none_oplock o c =
    with_state c (λ _. 0) (record o { level = if o.is_smb2 then smb2_level_none else oplock_none })

-- REQ_OPLOCK is 2 and REQ_BATCHOPLOCK is 4.
pub set_oplock_level : OpInfo → ℕ → Option LeaseCtx → OpInfo
unfolding grant_write_oplock grant_read_oplock grant_none_oplock
set_oplock_level o level c =
    if level == 2 || (level == 4 || is_smb2_write level)
    then grant_write_oplock o level c
    else if level == smb2_level_ii
    then grant_read_oplock o c
    else grant_none_oplock o c

copy_lease : OpInfo → OpInfo → OpInfo
copy_lease from o = record o {
  level = from.level;
  o_lease = record lease {
    state = owned.state;
    lease_key = owned.lease_key;
    duration = owned.duration;
    flags = if from.breaking_cnt == 0 then owned.flags else 2;
  };
}
  where
    lease : Lease
    lease = o.o_lease

    owned : Lease
    owned = from.o_lease

-- The label `out`: the new oplock goes to the front.
pub install : OpInfo → Inode → Inode × Outcome
install o i = (record { op_list = o ∷ i.op_list; op_count = i.op_count + 1 }, granted o)

-- The level that is left to an open beside another oplock, and the state of its lease context.
shared_level : Opening → OpInfo → ℕ
shared_level r prev =
    if is_some r.lctx && not prev.is_lease
    then smb2_level_ii
    else if prev.is_lease && not (is_some r.lctx) && handles prev.o_lease.state
    then smb2_level_none
    else if r.req_op_level == smb2_level_none
    then smb2_level_none
    else smb2_level_ii

reading_only : LeaseCtx → LeaseCtx
reading_only c = record c { req_state = 1 }

shared_lctx : Opening → OpInfo → Option LeaseCtx
unfolding reading_only
shared_lctx r prev =
    if prev.is_lease then r.lctx else elim r.lctx [ none ↦ none | some c ↦ some (reading_only c) ]

-- The label `op_break_not_needed`. `prev` is the earlier oplock as it was before a break.
share : Opening → OpInfo → Inode → Inode × Outcome
share r prev i =
    if r.share_failed
    then (i, share_error)
    else install (set_oplock_level (alloc_opinfo r) (shared_level r prev) (shared_lctx r prev)) i

-- The label `set_lev` with the level that was asked for.
set_lev : Opening → ℕ → Inode → Inode × Outcome
set_lev r level i = install (set_oplock_level (alloc_opinfo r) level r.lctx) i

-- The break of the newest oplock. A holder that closed its file has left the list.
break_newest : Opening → List Event → OpInfo → List OpInfo → ℕ → Inode × Outcome
break_newest r es prev rest count =
    if (smb_send_oplock_break_notification prev es).1
    then set_lev r r.req_op_level (record { op_list = rest; op_count = count - 1 })
    else share r prev (record {
      op_list = (smb_send_oplock_break_notification prev es).0 ∷ rest;
      op_count = count;
    })

-- Behind the lookup of an own lease: the newest oplock of the inode decides.
beside : Opening → List Event → List OpInfo → ℕ → Inode × Outcome
beside r es [] count = set_lev r r.req_op_level (record { op_list = []; op_count = count })
beside r es (prev ∷ rest) count =
    if r.share_failed && prev.level == smb2_level_exclusive
    then (record { op_list = prev ∷ rest; op_count = count }, share_error)
    else if is_smb2_write prev.level
    then break_newest r es prev rest count
    else share r prev (record { op_list = prev ∷ rest; op_count = count })

-- A lease of the same owner is copied.
beside_lease : Opening → List Event → LeaseCtx → Inode → Inode × Outcome
unfolding copy_lease
beside_lease r es c i = elim found.1 [
  | none ↦ beside r es found.0 i.op_count
  | some own ↦
      install (copy_lease own (alloc_opinfo r))
        (record { op_list = found.0; op_count = i.op_count })
]
  where
    found : List OpInfo × Option OpInfo
    found = same_client_has_lease r.client_guid i.op_count c i.op_list

pub smb_grant_oplock : Opening → List Event → Inode → Inode × Outcome
smb_grant_oplock r es i =
    if r.is_dir
    then (i, no_oplock)
    else if i.op_count == 0
    then set_lev r r.req_op_level i
    else if r.attr_fp
    then set_lev r smb2_level_none i
    else elim r.lctx [ none ↦ beside r es i.op_list i.op_count | some c ↦ beside_lease r es c i ]
