-- ===== src/Oplock/Ack/Release.antt =====
-- An answer to the break of a lease that takes effect ends the break and gives writing up:
-- smb20_oplock_break and smb21_lease_break of smb2pdu.c.
use cifsd.Base.{ℕ, ◌≡◌, ◌≢◌, ◌⊎◌, inl, inr, false, arith}
use cifsd.Oplock.{
  idle, OpInfo, writes, smb2_map_lease_to_oplock, opinfo_write_to_read, opinfo_write_to_none,
  opinfo_read_to_none, opinfo_read_handle_to_read,
}
use cifsd.Oplock.Ack.{oplock_break, lease_break}
use cifsd.Oplock.Ack.Laws.{IsBreaking, Offers}

pub oplock_break-released :
    (o : OpInfo) (level state new : ℕ)
    → IsBreaking o
    → o.o_lease.state ≡ state
    → o.o_lease.new_state ≡ new
    → Offers state new
    → ((oplock_break o level).0.op_state ≡ idle)
      × (writes (oplock_break o level).0.o_lease.state ≡ false)
unfolding oplock_break opinfo_write_to_read opinfo_write_to_none opinfo_read_to_none
    smb2_map_lease_to_oplock
oplock_break-released o level state new b s n (inl (p, inl q)) = ground arith
oplock_break-released o level state new b s n (inl (p, inr q)) = ground arith
oplock_break-released o level state new b s n (inr (inl (p, inl q))) = ground arith
oplock_break-released o level state new b s n (inr (inl (p, inr q))) = ground arith
oplock_break-released o level state new b s n (inr (inr (inl (p, inl q)))) = ground arith
oplock_break-released o level state new b s n (inr (inr (inl (p, inr q)))) = ground arith
oplock_break-released o level state new b s n (inr (inr (inr (p, q)))) = ground arith

pub lease_break-released :
    (o : OpInfo) (req state new : ℕ)
    → IsBreaking o
    → req ≢ 2
    → o.o_lease.state ≡ state
    → o.o_lease.new_state ≡ new
    → Offers state new
    → ((lease_break o req).0 ≡ o)
      ⊎ (((lease_break o req).0.op_state ≡ idle)
          × (writes (lease_break o req).0.o_lease.state ≡ false))
unfolding lease_break opinfo_write_to_read opinfo_write_to_none opinfo_read_to_none
    opinfo_read_handle_to_read smb2_map_lease_to_oplock
lease_break-released o req state new b h s n (inl (p, inl q)) = ground arith
lease_break-released o req state new b h s n (inl (p, inr q)) = ground arith
lease_break-released o req state new b h s n (inr (inl (p, inl q))) = ground arith
lease_break-released o req state new b h s n (inr (inl (p, inr q))) = ground arith
lease_break-released o req state new b h s n (inr (inr (inl (p, inl q)))) = ground arith
lease_break-released o req state new b h s n (inr (inr (inl (p, inr q)))) = ground arith
lease_break-released o req state new b h s n (inr (inr (inr (p, q)))) = ground arith

-- An answer leaves the client of an oplock.
pub oplock_break_client :
    (o : OpInfo) (level : ℕ) → (oplock_break o level).0.client_guid ≡ o.client_guid
unfolding oplock_break opinfo_write_to_read opinfo_write_to_none opinfo_read_to_none
oplock_break_client o level = ground arith

pub lease_break_client : (o : OpInfo) (req : ℕ) → (lease_break o req).0.client_guid ≡ o.client_guid
unfolding lease_break opinfo_write_to_read opinfo_write_to_none opinfo_read_to_none
    opinfo_read_handle_to_read
lease_break_client o req = ground arith
