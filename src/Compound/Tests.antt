-- ===== src/Compound/Tests.antt =====
-- Two echo requests in one packet.
use cifsd.Base.{ℕ, ◌≡◌, ◌↔◌, refl, inr, true, false, Option, none, some, ◌==◌, add32, if◌then◌else◌}
use cifsd.Wire.{Buffer, byte, le16, le32}
use cifsd.Wire.Write.{put16, put32}
use cifsd.Wire.Hdr
use cifsd.Compound.{
  proto_number, RspHdr, SmbWork, get_smb2_cmd_val, align8, is_chained_smb2_message, store_fid,
  next_offsets, keep_fid, new_header, init_chained_smb2_rsp, pad_last,
}
use cifsd.Compound.Serve.{
  Handled, finished, Server, WorkResult, dropped, sent, check_conn_state, find_handler,
  after_handler, call_handler, process_command, process_request, chain_next, process_chain, admit,
}
use cifsd.Compound.Checks.{IsSessionless, MayServe, is_admitted, admit_iff}

abbrev blank : RspHdr
blank = record {
  protocol_id = 0;
  status = 0;
  command = 0;
  credit_request = 0;
  flags = 0;
  next_command = 0;
  message_id = 0;
  process_id = 0;
  tree_id = 0;
  session_id = 0;
  volatile_fid = 0;
  persistent_fid = 0;
}

abbrev packet : Buffer
packet = put16 (put32 (put16 (put32 (λ i. 0) 4 proto_number) 16 13) 24 72) 88 13

abbrev work : SmbWork
work = record {
  request = packet;
  rcv_off = 0;
  rsp_off = 0;
  rfc_len = 64;
  rsp = λ x. blank;
  compound_fid = 0;
  compound_pfid = 0;
  compound_sid = 0;
  aux_payload_sz = 0;
  sess = none;
  tcon = none;
  encrypted = false;
  send_no_response = false;
}

-- smb2_echo as far as the length of its answer goes.
abbrev echo : SmbWork → Handled × SmbWork
echo w = (finished, record w { rfc_len = add32 w.rfc_len 4 })

abbrev server : Server
server = record {
  conn = record { good = true; has_session = λ id. false; has_tree = λ s t. false };
  down = false;
  malformed = λ w. false;
  max_cmds = 19;
  cmds = λ cmd. if cmd == 13 then some echo else none;
  is_sign_req = λ w cmd. false;
  check_sign_req = λ w. true;
  allocate_rsp_buf = false;
  is_transform_hdr = λ w. false;
  decrypt_req = λ w. (false, w);
  init_rsp_hdr = λ w. (false, w);
  finish = λ w. w;
  encrypts = λ w. true;
  encrypt_resp = λ w. (true, w);
}

admit_iff_example : (is_admitted (admit server work) ≡ true) ↔ MayServe server.conn work
admit_iff_example = admit_iff server work

work-IsSessionless : IsSessionless work
unfolding IsSessionless get_smb2_cmd_val Hdr.command put16 put32 le16 byte
work-IsSessionless = inr (inr refl)

abbrev sent_length : Option WorkResult → ℕ
sent_length (some (sent w)) = w.rfc_len
sent_length (some dropped) = 0
sent_length none = 0

-- Two answers of 68 bytes, each padded to 72.
both_answered : sent_length (process_chain server 2 1 work) ≡ 144
unfolding process_chain chain_next process_request check_conn_state process_command find_handler
    call_handler after_handler get_smb2_cmd_val is_chained_smb2_message init_chained_smb2_rsp
    new_header keep_fid next_offsets store_fid pad_last align8 Hdr.command Hdr.protocol_id Hdr.flags
    Hdr.next_command put16 put32 le32 le16 byte
both_answered = refl
