-- ===== src/Oplock/Break/LeaseLaws.antt =====
-- The break of a lease that has writing: smb_send_oplock_break_notification of oplock.c.
use cifsd.Base.{
  ◌+◌, ◌≡◌, refl, ap, ◌⊎◌, inl, inr, true, false, List, [], ◌∷◌, arith, All, Bool-cases,
}
use cifsd.Oplock.{idle, ack_wait, closing, Lease, OpInfo, writes, smb2_map_lease_to_oplock}
use cifsd.Oplock.Ack.{is_idle}
use cifsd.Oplock.Ack.Laws.{IsBreaking}
use cifsd.Oplock.Break.{
  Event, acknowledge, acknowledge_lease, close, is_waiting, await, respond, close_oplock,
  time_out_lease, is_listed, prepare_lease, sit_out, set_target, count_break, notify, report,
  is_closing, smb2_break_lease_notification, smb_send_oplock_break_notification, lease_needs_ack,
  break_target,
}
use cifsd.Oplock.Ack.Release.{oplock_break-released, lease_break-released}
use cifsd.Oplock.Break.Laws.{await-settled, await-waiting, waiting_lem}

abbrev pub IsLeaseReleased : OpInfo → Type 0
IsLeaseReleased o =
    (o.op_state ≡ closing) ⊎ ((o.op_state ≡ idle) × (writes o.o_lease.state ≡ false))

-- The acknowledgement that gives nothing up.
abbrev pub IsHandleOnly : Event → Type 0
IsHandleOnly (acknowledge_lease state) = state ≡ 2
IsHandleOnly _ = ⊥

respond-lease :
    (e : Event) (o : OpInfo)
    → IsBreaking o
    → o.op_state ≡ ack_wait
    → ¬ IsHandleOnly e
    → (respond e o ≡ o) ⊎ IsLeaseReleased (respond e o)
unfolding respond
respond-lease (acknowledge level) o b w h =
    inr
      (inr (oplock_break-released o level o.o_lease.state o.o_lease.new_state b refl refl b.offers))
respond-lease (acknowledge_lease state) o b w h = elim (Bool-cases (is_listed o)) [
  | inl l ↦
      rw l
        (elim (lease_break-released o state o.o_lease.state o.o_lease.new_state b h refl refl
          b.offers) [ inl same ↦ inl same | inr r ↦ inr (inr r) ])
  | inr l ↦ rw l (inl refl)
]
respond-lease close o b w h = inr (inl (unfold close_oplock is_waiting in ground arith))

IsLeaseReleased-settled : (o : OpInfo) → IsLeaseReleased o → is_waiting o.op_state ≡ false
unfolding is_waiting
IsLeaseReleased-settled o r = ground arith

await_end-lease :
    (o : OpInfo)
    → o.is_lease ≡ true
    → o.op_state ≡ ack_wait
    → IsLeaseReleased (await time_out_lease [] o).0
unfolding await time_out_lease is_waiting
await_end-lease o l w = inr (ground arith)

await-lease :
    (es : List Event) (o : OpInfo)
    → IsBreaking o
    → o.op_state ≡ ack_wait
    → All (λ e. ¬ IsHandleOnly e) es
    → IsLeaseReleased (await time_out_lease es o).0
await-lease [] o b w h = await_end-lease o b.lease w
await-lease (e ∷ es) o b w h =
    rw (await-waiting time_out_lease e es o (waiting_lem o w)) (elim (respond-lease e o b w h.0) [
      | inl same ↦ rw same (await-lease es o b w h.1)
      | inr r ↦
          rw
            (await-settled time_out_lease es (respond e o)
              (IsLeaseReleased-settled (respond e o) r))
            r
    ])

-- A lease that lets its client read and write, with or without handles, at the level that stands for its state, with no break
-- under way.
pub record IsWriteLease (o : OpInfo) : Type 0 where
  pub smb2 : o.is_smb2 ≡ true
  pub lease : o.is_lease ≡ true
  pub quiet : o.op_state ≡ idle
  pub state : (o.o_lease.state ≡ 7) ⊎ (o.o_lease.state ≡ 5)
  pub coherent : o.level ≡ smb2_map_lease_to_oplock o.o_lease.state

prepared : OpInfo → OpInfo
prepared o = record o {
  o_lease = record lease { new_state = break_target o.open_trunc lease.state };
  op_state = ack_wait;
  breaking_cnt = o.breaking_cnt + 1;
}
  where
    lease : Lease
    lease = o.o_lease

sit_out-quiet : (o : OpInfo) (es : List Event) → o.op_state ≡ idle → sit_out o es ≡ (o, es)
unfolding sit_out is_waiting
sit_out-quiet o es q = rw q

set_target-prepared : (o : OpInfo) → IsWriteLease o → set_target (count_break o) ≡ prepared o
unfolding set_target count_break prepared
set_target-prepared o v = ground arith

prepare_lease-prepared :
    (o : OpInfo) (es : List Event) → IsWriteLease o → prepare_lease o es ≡ (prepared o, es)
unfolding prepare_lease
prepare_lease-prepared o es v =
    rw (sit_out-quiet (count_break o) es v.quiet) (ap (λ p. (p, es)) (set_target-prepared o v))

prepared-IsBreaking : (o : OpInfo) → IsWriteLease o → IsBreaking (prepared o)
unfolding prepared break_target is_idle
prepared-IsBreaking o v = record {
  smb2 = v.smb2;
  lease = v.lease;
  waiting = refl;
  counted = omega arith;
  coherent = v.coherent;
  offers = ground arith;
}

notify-lease :
    (p : OpInfo) (es : List Event)
    → p.is_smb2 ≡ true
    → p.is_lease ≡ true
    → lease_needs_ack p ≡ true
    → notify p es ≡ record (await time_out_lease es p).0 { breaking_cnt = 0 }
unfolding notify smb2_break_lease_notification
notify-lease p es s l n = ground arith

lease_notified :
    (p : OpInfo) (es : List Event)
    → IsBreaking p
    → p.op_state ≡ ack_wait
    → lease_needs_ack p ≡ true
    → All (λ e. ¬ IsHandleOnly e) es
    → let (o', closed) = report (notify p es) in
      (o'.op_state ≡ idle)
      × (o'.breaking_cnt ≡ 0)
      × ((closed ≡ true) ⊎ (writes o'.o_lease.state ≡ false))
unfolding report is_closing
lease_notified p es b w n h =
    rw (notify-lease p es b.smb2 b.lease n) (ground (arith, await-lease es p b w h))

prepared_needs_ack : (o : OpInfo) → IsWriteLease o → lease_needs_ack (prepared o) ≡ true
unfolding lease_needs_ack prepared
prepared_needs_ack o v = ground arith

send-lease :
    (o : OpInfo) (es : List Event)
    → o.is_lease ≡ true
    → smb_send_oplock_break_notification o es
      ≡ report (notify (prepare_lease o es).0 (prepare_lease o es).1)
unfolding smb_send_oplock_break_notification
send-lease o es l = ground arith

-- Breaking a lease with reading and writing, with or without handles, at the level that stands for its
-- state and with no break under way, ends with no break under way, and the holder has then closed its
-- file or no longer writes, whatever it answered but handles alone, and also if it did not.
pub lease_break_completes :
    (o : OpInfo) (es : List Event)
    → IsWriteLease o
    → All (λ e. ¬ IsHandleOnly e) es
    → let (o', closed) = smb_send_oplock_break_notification o es in
      (o'.op_state ≡ idle)
      × (o'.breaking_cnt ≡ 0)
      × ((closed ≡ true) ⊎ (writes o'.o_lease.state ≡ false))
lease_break_completes o es v h =
    rw (send-lease o es v.lease, prepare_lease-prepared o es v)
      (lease_notified (prepared o) es (prepared-IsBreaking o v) (unfold prepared in refl)
        (prepared_needs_ack o v) h)
