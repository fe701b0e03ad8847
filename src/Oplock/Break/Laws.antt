-- ===== src/Oplock/Break/Laws.antt =====
-- A break ends with its holder out of the way, whatever the holder does in the meantime:
-- smb_send_oplock_break_notification of oplock.c.
use cifsd.Base.{◌≡◌, ◌≢◌, refl, ◌⊎◌, inl, inr, true, false, List, [], ◌∷◌, arith}
use cifsd.Oplock.{idle, ack_wait, closing, OpInfo, is_smb2_write}
use cifsd.Oplock.Ack.{is_idle}
use cifsd.Oplock.Ack.Release.{oplock_break_client, lease_break_client}
use cifsd.Oplock.Ack.Laws.{IsSmb2Level, oplock_break_releases}
use cifsd.Oplock.Break.{
  Event, acknowledge, acknowledge_lease, close, is_waiting, await, respond, close_oplock, time_out,
  is_listed, prepare_oplock, notify, report, is_closing, smb2_oplock_break_notification,
  smb_send_oplock_break_notification,
}

-- An SMB2 oplock, and no lease.
pub record IsPlain (o : OpInfo) : Type 0 where
  pub smb2 : o.is_smb2 ≡ true
  pub no_lease : o.is_lease ≡ false
  pub known : IsSmb2Level o.level

-- One that is held.
pub record IsOplock (o : OpInfo) : Type 0 where
  pub plain : IsPlain o
  pub held : o.level ≢ 0

-- Its break is over: the file was closed, or writing was given up.
abbrev pub IsReleased : OpInfo → Type 0
IsReleased o =
    IsPlain o × ((o.op_state ≡ closing) ⊎ ((o.op_state ≡ idle) × (is_smb2_write o.level ≡ false)))

respond-IsReleased :
    (e : Event) (o : OpInfo)
    → IsOplock o
    → o.op_state ≡ ack_wait
    → (respond e o ≡ o) ⊎ IsReleased (respond e o)
unfolding respond close_oplock is_waiting is_idle is_listed
respond-IsReleased (acknowledge level) o v w = inr (
    ground
      (arith, oplock_break_releases o level v.plain.smb2 v.plain.no_lease v.plain.known v.held))
respond-IsReleased (acknowledge_lease state) o v w = inl (ground (arith, v.plain.no_lease))
respond-IsReleased close o v w = inr (ground arith, inl (ground arith))

pub await-settled :
    (expire : OpInfo → OpInfo) (es : List Event) (o : OpInfo)
    → is_waiting o.op_state ≡ false
    → (await expire es o).0 ≡ o
unfolding await
await-settled expire [] o w = rw w
await-settled expire (e ∷ es) o w = rw w

IsReleased-settled : (o : OpInfo) → IsReleased o → is_waiting o.op_state ≡ false
unfolding is_waiting
IsReleased-settled o r = ground arith

pub await-waiting :
    (expire : OpInfo → OpInfo) (e : Event) (es : List Event) (o : OpInfo)
    → is_waiting o.op_state ≡ true
    → await expire (e ∷ es) o ≡ await expire es (respond e o)
unfolding await
await-waiting expire e es o w = ground arith

pub waiting_lem : (o : OpInfo) → o.op_state ≡ ack_wait → is_waiting o.op_state ≡ true
unfolding is_waiting
waiting_lem o w = rw w

await_end-IsReleased :
    (o : OpInfo) → IsPlain o → o.op_state ≡ ack_wait → IsReleased (await time_out [] o).0
unfolding await time_out is_waiting
await_end-IsReleased o p w = ground arith

await-IsReleased :
    (es : List Event) (o : OpInfo)
    → IsOplock o
    → o.op_state ≡ ack_wait
    → IsReleased (await time_out es o).0
await-IsReleased [] o v w = await_end-IsReleased o v.plain w
await-IsReleased (e ∷ es) o v w =
    rw (await-waiting time_out e es o (waiting_lem o w)) (elim (respond-IsReleased e o v w) [
      | inl same ↦ rw same (await-IsReleased es o v w)
      | inr r ↦ rw (await-settled time_out es (respond e o) (IsReleased-settled (respond e o) r)) r
    ])

send-plain :
    (o : OpInfo) (es : List Event)
    → IsPlain o
    → is_smb2_write o.level ≡ true
    → smb_send_oplock_break_notification o es
      ≡ report (await time_out es (record o { op_state = ack_wait })).0
unfolding smb_send_oplock_break_notification notify smb2_oplock_break_notification prepare_oplock
send-plain o es p w = ground arith

written-held : (o : OpInfo) → is_smb2_write o.level ≡ true → o.level ≢ 0
written-held o w = ground arith

break-IsReleased :
    (o : OpInfo) (es : List Event)
    → IsPlain o
    → is_smb2_write o.level ≡ true
    → IsReleased (await time_out es (record o { op_state = ack_wait })).0
break-IsReleased o es p w =
    await-IsReleased es _
      (record {
        plain = record { smb2 = p.smb2; no_lease = p.no_lease; known = p.known };
        held = written-held o w;
      })
      refl

respond_client : (e : Event) (o : OpInfo) → (respond e o).client_guid ≡ o.client_guid
unfolding respond close_oplock
respond_client (acknowledge level) o = oplock_break_client o level
respond_client (acknowledge_lease state) o = ground (arith, lease_break_client o state)
respond_client close o = ground arith

await_client : (es : List Event) (o : OpInfo) → (await time_out es o).0.client_guid ≡ o.client_guid
unfolding await time_out
await_client [] o = ground arith
await_client (e ∷ es) o = ground (arith, respond_client e o, await_client es (respond e o))

-- The client of a holder stays.
pub break_client :
    (o : OpInfo) (es : List Event)
    → IsPlain o
    → is_smb2_write o.level ≡ true
    → (smb_send_oplock_break_notification o es).0.client_guid ≡ o.client_guid
unfolding report
break_client o es p w =
    rw (send-plain o es p w) (ground (arith, await_client es (record o { op_state = ack_wait })))

-- Breaking an exclusive or batch oplock of SMB2 ends with no break under way, and the holder has
-- then closed its file or holds level II at most, whatever it answered and also if it did not.
pub oplock_break_completes :
    (o : OpInfo) (es : List Event)
    → IsPlain o
    → is_smb2_write o.level ≡ true
    → let (o', closed) = smb_send_oplock_break_notification o es in
      (o'.op_state ≡ idle) × IsPlain o' × ((closed ≡ true) ⊎ (is_smb2_write o'.level ≡ false))
unfolding report is_closing
oplock_break_completes o es p w =
    rw (send-plain o es p w) (ground (arith, break-IsReleased o es p w))

-- An SMB2 oplock that is not for writing is given up at once, whatever its holder does.
pub reader_break :
    (o : OpInfo) (es : List Event)
    → IsPlain o
    → is_smb2_write o.level ≡ false
    → (smb_send_oplock_break_notification o es).0.level ≡ 0
unfolding smb_send_oplock_break_notification notify smb2_oplock_break_notification prepare_oplock
    report is_closing
reader_break o es p w = ground arith
