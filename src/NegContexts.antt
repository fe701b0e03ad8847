-- ===== src/NegContexts.antt =====
-- The negotiate contexts of SMB 3.1.1: build_preauth_ctxt to deassemble_neg_contexts of smb2pdu.c.
-- Contexts are read and written where the code's pointers stand in the packet's bytes.
pub mod Read
pub mod Cipher
pub mod RoundTrip
mod Tests
use cifsd.Base.{ℕ, zero, suc, ◌+◌, ◌*◌, Bool, true, false, Option, none, some, ◌==◌, if◌then◌else◌}
use cifsd.Wire.{Buffer, advance, le16, le32}
use cifsd.Wire.Request.{negotiate_context_offset, negotiate_context_count}
use cifsd.Wire.Write.{put16, put32, put_bytes, inc_rfc1001_len}

abbrev pub status_success : ℕ
status_success = 0

abbrev pub status_invalid_parameter : ℕ
status_invalid_parameter = 0xC000000D

abbrev pub no_preauth_integrity_hash_overlap : ℕ
no_preauth_integrity_hash_overlap = 0xC05D0000

abbrev pub preauth_integrity_capabilities : ℕ
preauth_integrity_capabilities = 1

abbrev pub encryption_capabilities : ℕ
encryption_capabilities = 2

abbrev pub sha512 : ℕ
sha512 = 1

abbrev pub aes128_ccm : ℕ
aes128_ccm = 1

-- struct preauth_integrity_info without the hash value
pub record PreauthInfo : Type 0 where
  pub hash_id : ℕ
  pub cipher_id : ℕ

-- kzalloc
abbrev pub zeroed_info : PreauthInfo
zeroed_info = record { hash_id = 0; cipher_id = 0 }

-- The size of the two contexts with the padding that their readers skip.
abbrev pub preauth_stride : ℕ
preauth_stride = 48

abbrev pub encryption_stride : ℕ
encryption_stride = 16

-- The fields of the context at `at`.
unfoldable pub context_type : Buffer → ℕ → ℕ
context_type b at = le16 b at

unfoldable pub hash_algorithms : Buffer → ℕ → ℕ
hash_algorithms b at = le16 b (at + 12)

unfoldable pub cipher_count : Buffer → ℕ → ℕ
cipher_count b at = le16 b (at + 8)

unfoldable pub ciphers : Buffer → ℕ → ℕ → ℕ
ciphers b at i = le16 b (at + 10 + 2 * i)

-- `salt` stands for what get_random_bytes gives.
pub build_preauth_ctxt : Buffer → Buffer → ℕ → ℕ → Buffer
build_preauth_ctxt salt b at hash_id =
    let b = put16 b at preauth_integrity_capabilities in
    let b = put16 b (at + 2) 38 in
    let b = put16 b (at + 8) 1 in
    let b = put32 b (at + 4) 0 in
    let b = put16 b (at + 10) 32 in
    let b = put_bytes b (at + 14) 32 salt in put16 b (at + 12) hash_id

pub build_encrypt_ctxt : Buffer → ℕ → ℕ → Buffer
build_encrypt_ctxt b at cipher_id =
    let b = put16 b at encryption_capabilities in
    let b = put16 b (at + 2) 4 in
    let b = put32 b (at + 4) 0 in let b = put16 b (at + 8) 1 in put16 b (at + 10) cipher_id

-- NegotiateContextCount and NegotiateContextOffset of struct smb2_negotiate_rsp.
abbrev pub rsp_context_count : ℕ
rsp_context_count = 74

abbrev pub rsp_context_offset : ℕ
rsp_context_offset = 128

pub assemble_neg_contexts : Buffer → PreauthInfo → Buffer → Buffer
unfolding build_preauth_ctxt build_encrypt_ctxt
assemble_neg_contexts salt info rsp =
    let at = le32 rsp rsp_context_offset + 4 in
    let b = build_preauth_ctxt salt rsp at info.hash_id in
    let b = put16 b rsp_context_count 1 in
    let b = inc_rfc1001_len b (6 + 46) in
    if info.cipher_id == 0
    then b
    else inc_rfc1001_len
        (put16 (build_encrypt_ctxt b (at + preauth_stride) info.cipher_id) rsp_context_count 2) 14

pub decode_preauth_ctxt : Buffer → ℕ → PreauthInfo → PreauthInfo × ℕ
unfolding hash_algorithms
decode_preauth_ctxt b at info =
    if hash_algorithms b at == sha512
    then (record info { hash_id = sha512 }, status_success)
    else (info, no_preauth_integrity_hash_overlap)

-- The loop over the ciphers from `i` on.
pub has_aes128_ccm : Buffer → ℕ → ℕ → ℕ → Bool
unfolding ciphers
has_aes128_ccm b at i zero = false
has_aes128_ccm b at i (suc n) =
    let rest = has_aes128_ccm b at (i + 1) n in if ciphers b at i == aes128_ccm then true else rest

pub decode_encrypt_ctxt : Bool → Buffer → ℕ → PreauthInfo → PreauthInfo
unfolding cipher_count has_aes128_ccm
decode_encrypt_ctxt encryption_enable b at info =
    if encryption_enable
    then if has_aes128_ccm b at 0 (cipher_count b at)
      then record info { cipher_id = aes128_ccm }
      else record info { cipher_id = 0 }
    else record info { cipher_id = 0 }

-- `at` is pneg_ctxt; `type_at` is the pointer ContextType, which does not always follow it.
pub record ContextScan : Type 0 where
  pub at : ℕ
  pub type_at : ℕ
  pub info : PreauthInfo
  pub status : ℕ

-- What the body of the loop does before its last test, and whether it breaks there.
pub scan_context : Bool → Buffer → ContextScan → ContextScan × Bool
unfolding context_type decode_preauth_ctxt decode_encrypt_ctxt
scan_context encryption_enable b s =
    if context_type b s.type_at == preauth_integrity_capabilities
    then if s.info.hash_id == 0
      then (let r = decode_preauth_ctxt b s.at s.info in
          (
            record {
              at = s.at + preauth_stride;
              type_at = s.at + preauth_stride;
              info = r.0;
              status = r.1;
            },
            false,
          ))
      else (s, true)
    else if context_type b s.type_at == encryption_capabilities
    then if s.info.cipher_id == 0
      then (
        record s {
          at = s.at + encryption_stride;
          info = decode_encrypt_ctxt encryption_enable b s.at s.info;
        },
        false,
      )
      else (s, true)
    else (s, false)

-- The loop, with the number of rounds that are left.
pub scan_contexts : Bool → Buffer → ℕ → ContextScan → ContextScan
unfolding scan_context
scan_contexts encryption_enable b zero s = s
scan_contexts encryption_enable b (suc n) s =
    let r = scan_context encryption_enable b s in
    let rest = scan_contexts encryption_enable b n r.0 in
    if r.1 then r.0 else if r.0.status == status_success then rest else r.0

pub deassemble_neg_contexts : Bool → Buffer → PreauthInfo → PreauthInfo × ℕ
unfolding scan_contexts
deassemble_neg_contexts encryption_enable req info =
    let at = negotiate_context_offset req + 4 in
    let s =
      scan_contexts encryption_enable req (negotiate_context_count req)
        (record { at = at; type_at = at; info = info; status = status_invalid_parameter }) in
    (s.info, s.status)

-- What smb2_handle_negotiate learns of the contexts: nothing if they are wrong, or whether there is a
-- cipher, which init_smb3_11_server asks for.
pub contexts_of : Bool → Buffer → Option Bool
unfolding deassemble_neg_contexts
contexts_of encryption_enable req =
    let r = deassemble_neg_contexts encryption_enable req zeroed_info in
    if r.1 == status_success then some (if r.0.cipher_id == 0 then false else true) else none
