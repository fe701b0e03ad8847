-- ===== src/Oplock/Owner.antt =====
-- same_client_has_lease of oplock.c: an owner who asks again for its lease of an inode.
use Prim.Native.Nat.{bit_and, bit_or}
use cifsd.Base.{
  ℕ, Bool, true, false, not, ◌&&◌, Option, none, some, List, [], ◌∷◌, ltb, ◌==◌, if◌then◌else◌,
}
use cifsd.Oplock.{Lease, OpInfo, LeaseCtx, writes, lease_read_to_write, lease_none_upgrade}

-- compare_guid_key
same_owner : ℕ → LeaseCtx → OpInfo → Bool
same_owner guid c o = guid == o.client_guid && c.lease_key == o.o_lease.lease_key

set_state : ℕ → OpInfo → OpInfo
set_state s o = record o { o_lease = record lease { state = s } }
  where
    lease : Lease
    lease = o.o_lease

or_same : Option OpInfo → OpInfo → OpInfo
or_same none o = o
or_same (some o') o = o'

-- The upgrade of a lease whose owner asks again; `count` is `op_count`.
upgrade_first : ℕ → LeaseCtx → OpInfo → OpInfo
unfolding set_state or_same
upgrade_first count c o =
    if count == 1
    then if o.o_lease.state == bit_and c.req_state o.o_lease.state
      then if writes c.req_state then or_same (lease_read_to_write raised) raised else raised
      else o
    else if ltb 1 count && c.req_state == 3
    then set_state 3 o
    else o
  where
    raised : OpInfo
    raised = set_state (bit_or o.o_lease.state c.req_state) o

upgrade_lease : ℕ → LeaseCtx → OpInfo → OpInfo
unfolding upgrade_first or_same
upgrade_lease count c o =
    if not (c.req_state == 0) && first.o_lease.state == 0
    then or_same (lease_none_upgrade c.req_state first) first
    else first
  where
    first : OpInfo
    first = upgrade_first count c o

-- One step of the loop of same_client_has_lease, and the last match.
revisit : ℕ → ℕ → LeaseCtx → OpInfo → OpInfo × Bool
unfolding same_owner upgrade_lease
revisit guid count c o =
    if o.is_lease && same_owner guid c o
    then (if not (o.breaking_cnt == 0) then o else upgrade_lease count c o, true)
    else (o, false)

or_else : Option OpInfo → Option OpInfo → Option OpInfo
or_else none b = b
or_else (some a) b = some a

pub same_client_has_lease : ℕ → ℕ → LeaseCtx → List OpInfo → List OpInfo × Option OpInfo
unfolding revisit or_else
same_client_has_lease guid count c [] = ([], none)
same_client_has_lease guid count c (o ∷ os) =
    let later = same_client_has_lease guid count c os in
    let (o', hit) = revisit guid count c o in
    (o' ∷ later.0, or_else later.1 (if hit then some o' else none))
