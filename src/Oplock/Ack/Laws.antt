-- ===== src/Oplock/Ack/Laws.antt =====
-- What an acknowledgement leaves of an oplock or a lease: smb20_oplock_break and smb21_lease_break
-- of smb2pdu.c.
use cifsd.Base.{
  ℕ, ◌-◌, ◌<◌, ◌≡◌, ◌≢◌, ◌↔◌, refl, ◌⊎◌, inl, inr, true, false, ◌&&◌, ◌==◌, if◌then◌else◌, arith,
}
use cifsd.Oplock.{
  idle, Lease, OpInfo, is_smb2_write, opinfo_write_to_read, opinfo_read_handle_to_read,
  opinfo_write_to_none, opinfo_read_to_none, smb2_map_lease_to_oplock, lease_level,
}
use cifsd.Oplock.Ack.{granted, refused, oplock_break, lease_break, is_idle, request_not_accepted}

-- The levels of an SMB2 oplock
abbrev pub IsSmb2Level : ℕ → Type 0
IsSmb2Level l = (l ≡ 0) ⊎ (l ≡ 1) ⊎ (l ≡ 8) ⊎ (l ≡ 9)

-- The level behind an acknowledgement: level II only from a write oplock that is to be shared.
abbrev pub level_after : ℕ → ℕ → ℕ
level_after level req = if is_smb2_write level && req == 1 then 1 else 0

-- An expected acknowledgement, also one that names no level the server offered, releases the
-- waiter, leaves level II or none, and is answered with the level that is left.
pub oplock_break_releases :
    (o : OpInfo) (req : ℕ)
    → o.is_smb2 ≡ true
    → o.is_lease ≡ false
    → IsSmb2Level o.level
    → o.level ≢ 0
    → is_idle o.op_state ≡ false
    → oplock_break o req ≡ (
      record o { level = level_after o.level req; op_state = idle },
      granted (level_after o.level req),
    )
unfolding oplock_break opinfo_write_to_read opinfo_write_to_none opinfo_read_to_none
oplock_break_releases o req v n (inl l) h w = absurd (h l)
oplock_break_releases o req v n (inr (inl l)) h w = ground arith
oplock_break_releases o req v n (inr (inr (inl l))) h w = ground arith
oplock_break_releases o req v n (inr (inr (inr l))) h w = ground arith

-- The states that a break offers: without writing, or none at all.
abbrev pub Offers : ℕ → ℕ → Type 0
Offers state new =
    ((state ≡ 7) × ((new ≡ 3) ⊎ (new ≡ 0)))
    ⊎ ((state ≡ 5) × ((new ≡ 1) ⊎ (new ≡ 0)))
    ⊎ ((state ≡ 3) × ((new ≡ 1) ⊎ (new ≡ 0)))
    ⊎ ((state ≡ 1) × (new ≡ 0))

-- A lease whose break waits for its acknowledgement, at the level that stands for its state.
pub record IsBreaking (o : OpInfo) : Type 0 where
  pub smb2 : o.is_smb2 ≡ true
  pub lease : o.is_lease ≡ true
  pub waiting : is_idle o.op_state ≡ false
  pub counted : 0 < o.breaking_cnt
  pub coherent : o.level ≡ smb2_map_lease_to_oplock o.o_lease.state
  pub offers : Offers o.o_lease.state o.o_lease.new_state

-- The state on offer, or any state with no bit for writing where reading and handles are offered.
abbrev pub IsAccepted : ℕ → ℕ → Type 0
IsAccepted new req = (req ≡ new) ⊎ ((new ≡ 3) × (req < 4))

abbrev pub acknowledged : OpInfo → ℕ → OpInfo
acknowledged o req = record o {
  level = smb2_map_lease_to_oplock req;
  breaking_cnt = o.breaking_cnt - 1;
  op_state = idle;
  o_lease = record lease { state = req; new_state = req };
}
  where
    lease : Lease
    lease = o.o_lease

lease_break_case :
    (o : OpInfo) (req state new : ℕ)
    → IsBreaking o
    → o.o_lease.state ≡ state
    → o.o_lease.new_state ≡ new
    → IsAccepted new req
    → req ≢ 2
    → Offers state new
    → lease_break o req ≡ (acknowledged o req, granted req)
unfolding lease_break opinfo_write_to_read opinfo_write_to_none opinfo_read_to_none
    opinfo_read_handle_to_read smb2_map_lease_to_oplock
lease_break_case o req state new b s n a h (inl (p, inl q)) = ground arith
lease_break_case o req state new b s n a h (inl (p, inr q)) = ground arith
lease_break_case o req state new b s n a h (inr (inl (p, inl q))) = ground arith
lease_break_case o req state new b s n a h (inr (inl (p, inr q))) = ground arith
lease_break_case o req state new b s n a h (inr (inr (inl (p, inl q)))) = ground arith
lease_break_case o req state new b s n a h (inr (inr (inl (p, inr q)))) = ground arith
lease_break_case o req state new b s n a h (inr (inr (inr (p, q)))) = ground arith

-- An accepted acknowledgement of a lease break, but for handles alone, sets the state that the
-- client names, the level that stands for it, and releases the waiter.
pub lease_break-acknowledged :
    (o : OpInfo) (req : ℕ)
    → IsBreaking o
    → IsAccepted o.o_lease.new_state req
    → req ≢ 2
    → lease_break o req ≡ (acknowledged o req, granted req)
lease_break-acknowledged o req b a h =
    lease_break_case o req o.o_lease.state o.o_lease.new_state b refl refl a h b.offers

-- A state of the three known bits that is not on offer is refused, and the break waits on.
pub lease_break-refused :
    (o : OpInfo) (req : ℕ)
    → IsBreaking o
    → req < 8
    → ¬ IsAccepted o.o_lease.new_state req
    → lease_break o req ≡ (o, refused request_not_accepted)
unfolding lease_break
lease_break-refused o req b known bad = ground (
  arith,
  λ (e : req ≡ o.o_lease.new_state). bad (inl e),
  λ (e : o.o_lease.new_state ≡ 3) (f : req < 4). bad (inr (e, f)),
)

-- Asked to give up writing, a client that acknowledges with handles alone is told that its lease
-- with writing stands: state and level stay, and the waiter is released.
pub handle_only_keeps_writing :
    (o : OpInfo)
    → IsBreaking o
    → o.o_lease.state ≡ 7
    → o.o_lease.new_state ≡ 3
    → ((lease_break o 2).1 ≡ granted 7)
      × ((lease_break o 2).0.o_lease.state ≡ 7)
      × ((lease_break o 2).0.level ≡ 9)
      × ((lease_break o 2).0.op_state ≡ idle)
unfolding lease_break smb2_map_lease_to_oplock
handle_only_keeps_writing o b s n = (ground arith, ground arith, ground arith, ground arith)

-- The two ways from a lease state to a level agree exactly on the states that the protocol knows:
-- none, reading, and reading with handles, with writing, or with both.
pub lease_level-map_iff :
    (s : ℕ)
    → s < 8
    → (lease_level s 0 ≡ smb2_map_lease_to_oplock s)
      ↔ ((s ≡ 0) ⊎ (s ≡ 1) ⊎ (s ≡ 3) ⊎ (s ≡ 5) ⊎ (s ≡ 7))
unfolding lease_level smb2_map_lease_to_oplock
lease_level-map_iff s h = (λ e. ground arith, λ e. ground arith)
