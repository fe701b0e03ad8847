-- ===== src/Compound/Checks.antt =====
-- Which requests the checks of server.c let through to the handlers, and which they do not look at.
use cifsd.Base.{ℕ, ◌≡◌, ◌↔◌, ◌⊎◌, inl, inr, refl, Bool, true, false, none, arith}
use cifsd.Wire.Hdr
use cifsd.Compound.{
  SmbWork, get_smb2_cmd_val, ConnState, smb2_check_user_session, smb2_get_cifsd_tcon, store_fid,
  next_offsets, keep_fid, new_header, init_chained_smb2_rsp, pad_last, is_chained_smb2_message,
}
use cifsd.Compound.Serve.{Server, admit_tree, admit_session, admit, process_chain, after_init}

-- NEGOTIATE, SESSION_SETUP and ECHO.
unfoldable pub IsSessionless : SmbWork → Type 0
IsSessionless w = (get_smb2_cmd_val w ≡ 0) ⊎ (get_smb2_cmd_val w ≡ 1) ⊎ (get_smb2_cmd_val w ≡ 13)

-- LOGOFF, TREE_CONNECT and CANCEL.
pub IsTreeless : SmbWork → Type 0
IsTreeless w = (get_smb2_cmd_val w ≡ 2) ⊎ (get_smb2_cmd_val w ≡ 3) ⊎ (get_smb2_cmd_val w ≡ 12)

-- What the first request of a packet needs.
pub data MayServe (c : ConnState) (w : SmbWork) : Type 0 where
  sessionless : IsSessionless w → MayServe c w
  treeless :
      c.good ≡ true → c.has_session (Hdr.session_id w.request) ≡ true → IsTreeless w → MayServe c w
  connected :
      c.good ≡ true
      → c.has_session (Hdr.session_id w.request) ≡ true
      → c.has_tree (Hdr.session_id w.request) (Hdr.tree_id w.request) ≡ true
      → MayServe c w

pub is_admitted : SmbWork ⊎ SmbWork → Bool
is_admitted (inl w) = false
is_admitted (inr w) = true

admits : (s : Server) (w : SmbWork) → MayServe s.conn w → is_admitted (admit s w) ≡ true
unfolding admit admit_session admit_tree smb2_check_user_session smb2_get_cifsd_tcon is_admitted
    IsSessionless IsTreeless get_smb2_cmd_val
admits s w (sessionless h) = ground arith
admits s w (treeless g k h) = ground arith
admits s w (connected g k h) = ground arith

admitted_cases :
    (s : Server) (w : SmbWork)
    → is_admitted (admit s w) ≡ true
    → IsSessionless w
      ⊎ ((s.conn.good ≡ true)
          × (s.conn.has_session (Hdr.session_id w.request) ≡ true)
          × (IsTreeless w
              ⊎ (s.conn.has_tree (Hdr.session_id w.request) (Hdr.tree_id w.request) ≡ true)))
unfolding admit admit_session admit_tree smb2_check_user_session smb2_get_cifsd_tcon is_admitted
    IsSessionless IsTreeless get_smb2_cmd_val
admitted_cases s w e = ground arith

admitted : (s : Server) (w : SmbWork) → is_admitted (admit s w) ≡ true → MayServe s.conn w
admitted s w e = elim (admitted_cases s w e) [
  | inl h ↦ sessionless h
  | inr (g, k, inl h) ↦ treeless g k h
  | inr (g, k, inr h) ↦ connected g k h
]

-- The checks let a packet through if and only if its first request is NEGOTIATE, SESSION_SETUP or ECHO, or
-- the connection is in use, has the session, and either the request is LOGOFF, TREE_CONNECT or CANCEL or
-- the session has the tree connect.
pub admit_iff : (s : Server) (w : SmbWork) → (is_admitted (admit s w) ≡ true) ↔ MayServe s.conn w
admit_iff s w = (admitted s w, admits s w)

admit-sessionless :
    (s : Server) (w : SmbWork) → IsSessionless w → admit s w ≡ inr (record w { sess = none })
unfolding admit admit_session smb2_check_user_session IsSessionless get_smb2_cmd_val
admit-sessionless s w h = ground arith

next-keeps_session : (w : SmbWork) → (is_chained_smb2_message w).1.sess ≡ w.sess
unfolding is_chained_smb2_message init_chained_smb2_rsp new_header keep_fid next_offsets store_fid
    pad_last
next-keeps_session w = ground arith

-- Behind a first NEGOTIATE, SESSION_SETUP or ECHO every further request of the packet is served without a
-- check: the loop starts without a session, and going on to the next request does not look for one.
pub sessionless_unchecked :
    (s : Server) (fuel andx_fuel : ℕ) (w : SmbWork)
    → IsSessionless w
    → (after_init s fuel andx_fuel w ≡ process_chain s fuel andx_fuel (record w { sess = none }))
      × ((v : SmbWork) → (is_chained_smb2_message v).1.sess ≡ v.sess)
unfolding after_init
sessionless_unchecked s fuel andx_fuel w h =
    (rw (admit-sessionless s w h, after_init) refl, next-keeps_session)
