-- ===== src/Compound/Settle.antt =====
-- One request of the loop of server.c: __process_request with one handler.
use cifsd.Base.{
  ℕ, suc, ◌+◌, ◌≡◌, ◌≤◌, ◌<◌, refl, ◌⊎◌, inl, inr, not, ◌&&◌, Option, none, some, leb, arith,
  is_some, if◌then◌else◌, if_elim,
}
use cifsd.Compound.{SmbWork, get_smb2_cmd_val, set_smb2_rsp_status}
use cifsd.Compound.Serve.{
  Handled, finished, Server, Progress, continue, abort, check_conn_state, find_handler,
  after_handler, call_handler, process_command, process_request,
}
use cifsd.Compound.Layout.{next_at}

-- The work moves on within one request: it writes an answer of up to `m` bytes.
pub record Keeps (m : ℕ) (w w' : SmbWork) : Type 0 where
  pub request : w'.request ≡ w.request
  pub rcv_off : w'.rcv_off ≡ w.rcv_off
  pub rsp_off : w'.rsp_off ≡ w.rsp_off
  pub links : (x : ℕ) → next_at w' x ≡ next_at w x
  pub grows : w.rfc_len ≤ w'.rfc_len
  pub bounded : w'.rfc_len ≤ w.rfc_len + m

-- What the loop relies on: a handler of SMB2 returns no further command and writes an answer of up to
-- `m` bytes to its place.
pub record IsBehaved (m : ℕ) (s : Server) : Type 0 where
  pub error_fits : 9 ≤ m
  pub handlers :
      (cmd : ℕ) (h : SmbWork → Handled × SmbWork) (w : SmbWork)
      → s.cmds cmd ≡ some h
      → w.rfc_len + m < 16777216
      → ((h w).0 ≡ finished) × Keeps m w (h w).1

-- What one request leaves.
pub data IsSettled (m : ℕ) (w : SmbWork) : Option Progress → Type 0 where
  went : {w' : SmbWork} → Keeps m w w' → IsSettled m w (some (continue w'))
  stopped : {w' : SmbWork} → IsSettled m w (some (abort w'))

status-Keeps :
    (m err : ℕ) (w : SmbWork)
    → 9 ≤ m
    → w.rfc_len + m < 16777216
    → Keeps m w (set_smb2_rsp_status err w)
unfolding set_smb2_rsp_status
status-Keeps m err w n f = record {
  request = refl;
  rcv_off = refl;
  rsp_off = refl;
  links = λ x. ground arith;
  grows = ground arith;
  bounded = ground arith;
}

module _ (m : ℕ) (s : Server) (b : IsBehaved m s) where
  handler-IsSettled :
      (fuel : ℕ) (w : SmbWork) (r : Handled × SmbWork)
      → r.0 ≡ finished
      → Keeps m w r.1
      → IsSettled m w (after_handler s (process_command s fuel) r)
  unfolding after_handler
  handler-IsSettled fuel w (finished, w') e k =
      if_elim (λ v. IsSettled m w (some v)) w'.send_no_response stopped (went k)
  handler-IsSettled fuel w (Handled.andx c, w') e k = absurd (ground arith)

  -- What the tests before the handler give.
  data IsFound (cmd : ℕ) (w : SmbWork) : SmbWork ⊎ (SmbWork → Handled × SmbWork) → Type 0 where
    refused : {w' : SmbWork} → Keeps m w w' → IsFound cmd w (inl w')
    found : {h : SmbWork → Handled × SmbWork} → s.cmds cmd ≡ some h → IsFound cmd w (inr h)

  table-IsFound :
      (cmd : ℕ) (w : SmbWork) (o : Option (SmbWork → Handled × SmbWork))
      → s.cmds cmd ≡ o
      → w.rfc_len + m < 16777216
      → IsFound cmd w (elim o [
        | none ↦ inl (set_smb2_rsp_status 0xC0000002 w)
        | some h ↦
            if is_some w.sess && s.is_sign_req w cmd && not (s.check_sign_req w)
            then inl (set_smb2_rsp_status 0xC000003E w)
            else inr h
      ])
  table-IsFound cmd w none e f = refused (status-Keeps m 0xC0000002 w b.error_fits f)
  table-IsFound cmd w (some h) e f =
      if_elim (IsFound cmd w) (is_some w.sess && s.is_sign_req w cmd && not (s.check_sign_req w))
        (refused (status-Keeps m 0xC000003E w b.error_fits f)) (found e)

  find_handler-IsFound :
      (cmd : ℕ) (w : SmbWork) → w.rfc_len + m < 16777216 → IsFound cmd w (find_handler s cmd w)
  unfolding find_handler
  find_handler-IsFound cmd w f =
      if_elim (IsFound cmd w) (leb s.max_cmds cmd)
        (refused (status-Keeps m 0xC000000D w b.error_fits f))
        (table-IsFound cmd w (s.cmds cmd) refl f)

  call-IsSettled :
      (fuel cmd : ℕ) (w : SmbWork) (r : SmbWork ⊎ (SmbWork → Handled × SmbWork))
      → w.rfc_len + m < 16777216
      → IsFound cmd w r
      → IsSettled m w (call_handler s (process_command s fuel) w r)
  unfolding call_handler
  call-IsSettled fuel cmd w _ f (refused k) = went k
  call-IsSettled fuel cmd w _ f (found {h = h} e) =
      let k = b.handlers cmd h w e f in handler-IsSettled fuel w (h w) k.0 k.1

  state-Keeps : (w : SmbWork) → Keeps m w (check_conn_state s w).1
  unfolding check_conn_state
  state-Keeps w = record {
    request = ground arith;
    rcv_off = ground arith;
    rsp_off = ground arith;
    links = λ x. ground arith;
    grows = ground arith;
    bounded = ground arith;
  }

  -- One request is settled with one handler.
  pub request-IsSettled :
      (fuel : ℕ) (w : SmbWork)
      → w.rfc_len + m < 16777216
      → IsSettled m w (process_request s (suc fuel) w)
  unfolding process_request process_command
  request-IsSettled fuel w f =
      if_elim (IsSettled m w) (check_conn_state s w).0 (went (state-Keeps w)) (
        if_elim (IsSettled m w) (s.malformed w) stopped (
          call-IsSettled fuel (get_smb2_cmd_val w) w (find_handler s (get_smb2_cmd_val w) w) f
            (find_handler-IsFound (get_smb2_cmd_val w) w f)))
