-- ===== src/Oplock/Tests.antt =====
-- A batch oplock, a lease with all three bits, and opens beside them.
use cifsd.Base.{◌≡◌, refl, ◌⊎◌, inl, inr, true, false, none, [], ◌∷◌, arith}
use cifsd.Oplock.{idle, ack_wait, Lease, OpInfo, writes, is_smb2_write, smb2_map_lease_to_oplock}
use cifsd.Oplock.Ack.{is_idle}
use cifsd.Oplock.Ack.Laws.{IsBreaking}
use cifsd.Oplock.Break.{acknowledge, acknowledge_lease, close, smb_send_oplock_break_notification}
use cifsd.Oplock.Break.Laws.{IsPlain, oplock_break_completes}
use cifsd.Oplock.Break.LeaseLaws.{IsWriteLease, lease_break_completes}
use cifsd.Oplock.Grant.{Opening, smb_grant_oplock}
use cifsd.Oplock.Grant.Exclusive.{IsExclusive, grant-IsExclusive}
use cifsd.Oplock.Grant.Hidden.{held_by}

abbrev nothing : Lease
nothing = record { lease_key = 0; state = 0; new_state = 0; flags = 0; duration = 0 }

abbrev batch : OpInfo
batch = record {
  client_guid = 1;
  is_smb2 = true;
  level = 9;
  op_state = idle;
  breaking_cnt = 0;
  is_lease = false;
  o_lease = nothing;
  open_trunc = false;
}

abbrev waiting_batch : OpInfo
waiting_batch = record batch { op_state = ack_wait }

abbrev write_lease : OpInfo
write_lease = record batch { is_lease = true; o_lease = record nothing { state = 7 } }

abbrev breaking_lease : OpInfo
breaking_lease = record batch {
  op_state = ack_wait;
  breaking_cnt = 1;
  is_lease = true;
  o_lease = record nothing { state = 7; new_state = 3 };
}

abbrev opening : Opening
opening = record {
  client_guid = 2;
  is_smb2 = true;
  is_dir = false;
  attr_fp = false;
  req_op_level = 9;
  lctx = none;
  share_failed = false;
}

abbrev attr_opening : Opening
attr_opening = record opening { attr_fp = true }

breaking_lease-IsBreaking : IsBreaking breaking_lease
unfolding is_idle smb2_map_lease_to_oplock
breaking_lease-IsBreaking = record {
  smb2 = refl;
  lease = refl;
  waiting = refl;
  counted = omega arith;
  coherent = refl;
  offers = inl (refl, inl refl);
}

batch-IsPlain : IsPlain batch
batch-IsPlain = record { smb2 = refl; no_lease = refl; known = inr (inr (inr refl)) }

oplock_break_completes_example :
    let (o', closed) = smb_send_oplock_break_notification batch (acknowledge 1 ∷ []) in
    (o'.op_state ≡ idle) × IsPlain o' × ((closed ≡ true) ⊎ (is_smb2_write o'.level ≡ false))
oplock_break_completes_example =
    oplock_break_completes batch (acknowledge 1 ∷ []) batch-IsPlain refl

write_lease-IsWriteLease : IsWriteLease write_lease
unfolding smb2_map_lease_to_oplock
write_lease-IsWriteLease = record {
  smb2 = refl;
  lease = refl;
  quiet = refl;
  state = inl refl;
  coherent = refl;
}

lease_break_completes_example :
    let (o', closed) =
      smb_send_oplock_break_notification write_lease
        (acknowledge_lease 7 ∷ acknowledge_lease 1 ∷ []) in
    (o'.op_state ≡ idle)
    × (o'.breaking_cnt ≡ 0)
    × ((closed ≡ true) ⊎ (writes o'.o_lease.state ≡ false))
lease_break_completes_example =
    lease_break_completes write_lease (acknowledge_lease 7 ∷ acknowledge_lease 1 ∷ [])
      write_lease-IsWriteLease (omega arith)

grant-IsExclusive_example : IsExclusive (smb_grant_oplock opening (close ∷ []) (held_by batch)).0
grant-IsExclusive_example =
    grant-IsExclusive opening (record { smb2 = refl; no_lease = refl; not_attr = refl })
      (close ∷ []) (held_by batch)
      (record { counted = refl; plain = (batch-IsPlain, tt); sole = (λ _. refl, tt) })
