-- ===== src/Compound/Serve.antt =====
-- check_conn_state, __process_request and __handle_cifsd_work of server.c for an SMB2 connection.
use cifsd.Base.{
  ◌*◌, ◌/◌, ◌+◌, ℕ, zero, suc, ◌⊎◌, inl, inr, Bool, true, false, not, ◌&&◌, Option, none, some, leb,
  is_some, if◌then◌else◌,
}
use cifsd.Compound.{
  RspHdr, SmbWork, set_rsp, get_smb2_cmd_val, is_chained_smb2_message, ConnState, Check, refused,
  exempt, passed, smb2_check_user_session, smb2_get_cifsd_tcon, set_smb2_rsp_status,
}

-- What a handler returns: 0 or a negative error, or the command that is chained behind its own.
pub data Handled : Type 0 where
  finished : Handled
  andx : ℕ → Handled

-- The connection and the operations that the loop calls: `down` is whether the connection is exiting or
-- needs a reconnect, `malformed` is cifsd_verify_smb_message, `cmds` the table of handlers, and the
-- operations of the connection say whether they failed.
pub record Server : Type 0 where
  pub conn : ConnState
  pub down : Bool
  pub malformed : SmbWork → Bool
  pub max_cmds : ℕ
  pub cmds : ℕ → Option (SmbWork → Handled × SmbWork)
  pub is_sign_req : SmbWork → ℕ → Bool
  pub check_sign_req : SmbWork → Bool
  pub allocate_rsp_buf : Bool
  pub is_transform_hdr : SmbWork → Bool
  pub decrypt_req : SmbWork → Bool × SmbWork
  pub init_rsp_hdr : SmbWork → Bool × SmbWork
  pub finish : SmbWork → SmbWork
  pub encrypts : SmbWork → Bool
  pub encrypt_resp : SmbWork → Bool × SmbWork

-- The result of a step: go on with the next request, or drop the answer.
pub data Progress : Type 0 where
  continue abort : SmbWork → Progress

-- The response or its absence.
pub data WorkResult : Type 0 where
  dropped : WorkResult
  sent : SmbWork → WorkResult

module _ (s : Server) where
  -- check_conn_state writes the status STATUS_CONNECTION_DISCONNECTED where a header of SMB1 has it, from the
  -- byte 9 on: its last byte is the first one of the status of SMB2. No error structure is written.
  unfoldable pub check_conn_state : SmbWork → Bool × SmbWork
  check_conn_state w =
      if s.down
      then (
        true,
        record w {
          rsp = set_rsp w.rsp 0 (record first { status = first.status / 256 * 256 + 0xC0 });
        },
      )
      else (false, w)
    where
      first : RspHdr
      first = w.rsp 0

  -- The tests before the handler: the work with its error, or the handler.
  unfoldable pub find_handler : ℕ → SmbWork → SmbWork ⊎ (SmbWork → Handled × SmbWork)
  find_handler cmd w =
      if leb s.max_cmds cmd then inl (set_smb2_rsp_status 0xC000000D w) else elim (s.cmds cmd) [
        | none ↦ inl (set_smb2_rsp_status 0xC0000002 w)
        | some h ↦
            if is_some w.sess && s.is_sign_req w cmd && not (s.check_sign_req w)
            then inl (set_smb2_rsp_status 0xC000003E w)
            else inr h
      ]

  unfoldable pub after_handler :
      (ℕ → SmbWork → Option Progress) → Handled × SmbWork → Option Progress
  after_handler again (finished, w) = some (if w.send_no_response then abort w else continue w)
  after_handler again (andx cmd, w) = again cmd w

  unfoldable pub call_handler :
      (ℕ → SmbWork → Option Progress)
      → SmbWork
      → SmbWork ⊎ (SmbWork → Handled × SmbWork)
      → Option Progress
  unfolding after_handler
  call_handler again w (inl w') = some (continue w')
  call_handler again w (inr h) = after_handler again (h w)

  -- From andx_again on, with a bound on the handlers.
  unfoldable pub process_command : ℕ → ℕ → SmbWork → Option Progress
  unfolding find_handler call_handler
  process_command zero cmd w = none
  process_command (suc fuel) cmd w = call_handler (process_command fuel) w (find_handler cmd w)

  unfoldable pub process_request : ℕ → SmbWork → Option Progress
  unfolding check_conn_state process_command
  process_request fuel w =
      if (check_conn_state w).0
      then some (continue (check_conn_state w).1)
      else if s.malformed w
      then some (abort w)
      else process_command fuel (get_smb2_cmd_val w) w

  -- What follows one request of the chain.
  unfoldable pub chain_next : (SmbWork → Option WorkResult) → Option Progress → Option WorkResult
  chain_next again none = none
  chain_next again (some (abort w)) = some dropped
  chain_next again (some (continue w)) =
      let r = is_chained_smb2_message w in if r.0 then again r.1 else some (sent r.1)

  -- The loop over the chain, with a bound on its requests and on the handlers of each.
  unfoldable pub process_chain : ℕ → ℕ → SmbWork → Option WorkResult
  unfolding process_request chain_next
  process_chain zero andx_fuel w = none
  process_chain (suc fuel) andx_fuel w =
      chain_next (process_chain fuel andx_fuel) (process_request andx_fuel w)

  unfoldable pub admit_tree : Check × SmbWork → SmbWork ⊎ SmbWork
  admit_tree (refused, w) = inl (set_smb2_rsp_status 0xC00000C9 w)
  admit_tree (exempt, w) = inr w
  admit_tree (passed, w) = inr w

  -- The tests before the loop: the work with its error, or the work that may go on.
  unfoldable pub admit_session : Check × SmbWork → SmbWork ⊎ SmbWork
  unfolding admit_tree
  admit_session (refused, w) = inl (set_smb2_rsp_status 0xC0000203 w)
  admit_session (exempt, w) = inr w
  admit_session (passed, w) = admit_tree (smb2_get_cifsd_tcon s.conn w)

  unfoldable pub admit : SmbWork → SmbWork ⊎ SmbWork
  unfolding admit_session
  admit w = admit_session (smb2_check_user_session s.conn w)

  -- From `send` on, with a bound on its turns: `finish` is the credits and the hash, and `encrypts` whether
  -- the answer is to be encrypted. The signature of an answer that is not encrypted is left out.
  unfoldable pub send : ℕ → SmbWork → Option SmbWork
  send zero w = none
  send (suc fuel) w =
      let w = s.finish w in
      if s.encrypts w
      then (let r = s.encrypt_resp w in
          let rest = send fuel (set_smb2_rsp_status 0xC000003E r.1) in
          if r.0 then rest else some r.1)
      else some w

  unfoldable pub send_outcome : ℕ → Option WorkResult → Option WorkResult
  unfolding send
  send_outcome fuel none = none
  send_outcome fuel (some dropped) = some dropped
  send_outcome fuel (some (sent w)) = elim (send fuel w) [ none ↦ none | some w' ↦ some (sent w') ]

  -- What follows init_rsp_hdr.
  unfoldable pub after_init : ℕ → ℕ → SmbWork → Option WorkResult
  unfolding admit process_chain
  after_init fuel andx_fuel w = elim (admit w) [
    | inl w' ↦ some (sent w')
    | inr w' ↦ process_chain fuel andx_fuel w'
  ]

  unfoldable pub after_decrypt : ℕ → ℕ → SmbWork → Option WorkResult
  unfolding after_init
  after_decrypt fuel andx_fuel w =
      let r = s.init_rsp_hdr w in
      if r.0
      then some (sent (set_smb2_rsp_status 0xC0000008 r.1))
      else after_init fuel andx_fuel r.1

  unfoldable pub handle_cifsd_work : ℕ → ℕ → ℕ → SmbWork → Option WorkResult
  unfolding after_decrypt send_outcome
  handle_cifsd_work fuel andx_fuel send_fuel w =
      if s.allocate_rsp_buf
      then some dropped
      else if s.is_transform_hdr w
      then (let r = s.decrypt_req w in
          send_outcome send_fuel (
            if r.0
            then some (sent (set_smb2_rsp_status 0xC000003E r.1))
            else after_decrypt fuel andx_fuel (record r.1 { encrypted = true })))
      else send_outcome send_fuel (after_decrypt fuel andx_fuel w)
