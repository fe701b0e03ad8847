-- ===== src/Compound.antt =====
-- Compound requests of SMB2 and the loop that answers them: is_chained_smb2_message,
-- smb2_check_user_session and smb2_get_cifsd_tcon of smb2pdu.c, __process_request and
-- __handle_cifsd_work of server.c. The handlers, the message check, signatures and encryption are
-- arguments.
pub mod Checks
pub mod Layout
pub mod Settle
pub mod Answer
pub mod Serve
pub mod Send
mod Tests
use cifsd.Base.{
  ℕ, zero, suc, ◌+◌, ◌-◌, ◌*◌, ◌/◌, ◌%◌, ◌≡◌, Bool, true, false, not, ◌&&◌, ◌||◌, Option, none,
  some, ltb, leb, ◌==◌, is_some, test_bit, add32, sub32, if◌then◌else◌,
}
use cifsd.Wire.{Buffer, advance}
use cifsd.Wire.Hdr

abbrev pub proto_number : ℕ
proto_number = 0x424d53fe

abbrev pub no_compound_fid : ℕ
no_compound_fid = 0xffffffff

-- A header of the response, and of a create response the file ids behind it.
pub record RspHdr : Type 0 where
  pub protocol_id : ℕ
  pub status : ℕ
  pub command : ℕ
  pub credit_request : ℕ
  pub flags : ℕ
  pub next_command : ℕ
  pub message_id : ℕ
  pub process_id : ℕ
  pub tree_id : ℕ
  pub session_id : ℕ
  pub volatile_fid : ℕ
  pub persistent_fid : ℕ

-- struct cifsd_work as far as the loop goes: the request, the offsets of the current headers, the RFC
-- 1002 length of the response and its headers by offset, the ids for related requests, the session and
-- the tree connect that were found.
pub record SmbWork : Type 0 where
  pub request : Buffer
  pub rcv_off : ℕ
  pub rsp_off : ℕ
  pub rfc_len : ℕ
  pub rsp : ℕ → RspHdr
  pub compound_fid : ℕ
  pub compound_pfid : ℕ
  pub compound_sid : ℕ
  pub aux_payload_sz : ℕ
  pub sess : Option ℕ
  pub tcon : Option ℕ
  pub encrypted : Bool
  pub send_no_response : Bool

abbrev pub set_rsp : (ℕ → RspHdr) → ℕ → RspHdr → ℕ → RspHdr
set_rsp f o h x = if x == o then h else f x

-- The current header of the request.
abbrev pub current : SmbWork → Buffer
current w = advance w.request w.rcv_off

unfoldable pub get_smb2_cmd_val : SmbWork → ℕ
get_smb2_cmd_val w = Hdr.command (current w)

unfoldable pub align8 : ℕ → ℕ
align8 len = (len + 7) / 8 * 8

-- The first part of init_chained_smb2_rsp: the file ids of a create that has succeeded.
unfoldable pub store_fid : SmbWork → SmbWork
store_fid w =
    if (Hdr.command (current w) == 5) && ((w.rsp w.rsp_off).status == 0)
    then record w {
      compound_fid = (w.rsp w.rsp_off).volatile_fid % 4294967296;
      compound_pfid = (w.rsp w.rsp_off).persistent_fid % 4294967296;
      compound_sid = (w.rsp w.rsp_off).session_id % 4294967296;
    }
    else w

-- The length field has 24 of the 32 bits.
abbrev pub rfc1002_length : ℕ → ℕ
rfc1002_length n = n % 16777216

-- The second: the current answer is padded, and the offsets move to the next request and answer.
unfoldable pub next_offsets : SmbWork → SmbWork
unfolding align8
next_offsets w =
    let len = sub32 (rfc1002_length w.rfc_len) w.rsp_off in
    let new_len = align8 len in
    record w {
      rfc_len = add32 w.rfc_len (64 + (new_len - len));
      rsp = set_rsp w.rsp w.rsp_off (record (w.rsp w.rsp_off) { next_command = new_len });
      rcv_off = add32 w.rcv_off (Hdr.next_command (current w));
      rsp_off = add32 w.rsp_off new_len;
    }

-- The third: ids are kept for a related request only.
unfoldable pub keep_fid : SmbWork → SmbWork
keep_fid w =
    if test_bit (Hdr.flags (current w)) 2
    then w
    else record w { compound_fid = no_compound_fid; compound_pfid = no_compound_fid }

-- The last: a header for the next answer. 5 is SERVER_TO_REDIR and RELATED_OPERATIONS.
unfoldable pub new_header : SmbWork → SmbWork
new_header w = record w {
  rsp = set_rsp w.rsp w.rsp_off (record {
    protocol_id = Hdr.protocol_id (current w);
    status = 0;
    command = Hdr.command (current w);
    credit_request = Hdr.credit_request (current w);
    flags = 5;
    next_command = 0;
    message_id = Hdr.message_id (current w);
    process_id = Hdr.process_id (current w);
    tree_id = Hdr.tree_id (current w);
    session_id = Hdr.session_id (current w);
    volatile_fid = 0;
    persistent_fid = 0;
  });
}

unfoldable pub init_chained_smb2_rsp : SmbWork → SmbWork
unfolding store_fid next_offsets keep_fid new_header
init_chained_smb2_rsp w = new_header (keep_fid (next_offsets (store_fid w)))

-- The last answer of a chain is padded as well.
unfoldable pub pad_last : SmbWork → SmbWork
unfolding align8
pad_last w =
    let len = align8 (rfc1002_length w.rfc_len) - rfc1002_length w.rfc_len in
    if len == 0 then w else record w {
      rfc_len = add32 w.rfc_len len;
      aux_payload_sz = if w.aux_payload_sz == 0 then 0 else w.aux_payload_sz + len;
    }

unfoldable pub is_chained_smb2_message : SmbWork → Bool × SmbWork
unfolding init_chained_smb2_rsp pad_last
is_chained_smb2_message w =
    if not (Hdr.protocol_id w.request == proto_number)
    then (false, w)
    else if ltb 0 (Hdr.next_command (current w))
    then (true, init_chained_smb2_rsp w)
    else if w.rcv_off == 0
    then (false, w)
    else (false, pad_last w)

-- What the connection knows: whether it is in use, its sessions, and the tree connects of each.
pub record ConnState : Type 0 where
  pub good : Bool
  pub has_session : ℕ → Bool
  pub has_tree : ℕ → ℕ → Bool

-- An `int` that is negative, 0 or positive.
pub data Check : Type 0 where
  refused exempt passed : Check

unfoldable pub smb2_check_user_session : ConnState → SmbWork → Check × SmbWork
unfolding get_smb2_cmd_val
smb2_check_user_session c w =
    let cmd = get_smb2_cmd_val w in
    let w = record w { sess = none } in
    if (cmd == 13) || (cmd == 0) || (cmd == 1)
    then (exempt, w)
    else if not c.good
    then (refused, w)
    else if c.has_session (Hdr.session_id w.request)
    then (passed, record w { sess = some (Hdr.session_id w.request) })
    else (refused, w)

-- `has_tree` is false for every id if the session has no tree connect.
unfoldable pub smb2_get_cifsd_tcon : ConnState → SmbWork → Check × SmbWork
unfolding get_smb2_cmd_val
smb2_get_cifsd_tcon c w =
    let cmd = get_smb2_cmd_val w in
    let w = record w { tcon = none } in
    if (cmd == 3) || (cmd == 12) || (cmd == 2) then (exempt, w) else elim w.sess [
      | none ↦ (refused, w)
      | some s ↦
          if c.has_tree s (Hdr.tree_id w.request)
          then (passed, record w { tcon = some (Hdr.tree_id w.request) })
          else (refused, w)
    ]

-- smb2_set_err_rsp follows, which adds the error structure, but not behind a symlink's error.
unfoldable pub set_smb2_rsp_status : ℕ → SmbWork → SmbWork
set_smb2_rsp_status err w =
    let o = if w.rcv_off == 0 then 0 else w.rsp_off in
    record w {
      rfc_len = if err == 0x8000002D then w.rfc_len else add32 w.rfc_len 9;
      rsp = set_rsp w.rsp o (record (w.rsp o) { status = err });
    }
