-- ===== src/NegContexts/RoundTrip.antt =====
-- What assemble_neg_contexts of smb2pdu.c writes, deassemble_neg_contexts reads back.
use cifsd.Base.{ℕ, ◌+◌, ◌≡◌, ◌∙◌, ◌≢◌, ◌<◌, ◌⊎◌, inl, inr, Bool, true, arith, ◌==◌, if◌then◌else◌}
use cifsd.Wire.{Buffer, byte, le16, le32}
use cifsd.Wire.Request.{negotiate_context_offset, negotiate_context_count}
use cifsd.Wire.Write.{put16, put32, put_bytes, put_be32, inc_rfc1001_len}
use cifsd.NegContexts.{
  status_success, status_invalid_parameter, sha512, aes128_ccm, PreauthInfo, zeroed_info,
  context_type, hash_algorithms, cipher_count, ciphers, build_preauth_ctxt, build_encrypt_ctxt,
  rsp_context_count, rsp_context_offset, assemble_neg_contexts, decode_preauth_ctxt, has_aes128_ccm,
  decode_encrypt_ctxt, ContextScan, scan_context, scan_contexts, deassemble_neg_contexts,
}

-- The response has its contexts at OFFSET_OF_NEG_CONTEXT, which smb2_handle_negotiate stores before it
-- calls assemble_neg_contexts.
abbrev pub offset_of_neg_context : ℕ
offset_of_neg_context = 0xd0

-- The fields that a reader of the assembled contexts meets.
record Holds (info : PreauthInfo) (b : Buffer) : Type 0 where
  first_type : le16 b 212 ≡ 1
  first_hash : le16 b 224 ≡ info.hash_id
  count : le16 b rsp_context_count ≡ (if info.cipher_id == 0 then 1 else 2)
  second_type : info.cipher_id ≢ 0 → le16 b 260 ≡ 2
  one_cipher : info.cipher_id ≢ 0 → le16 b 268 ≡ 1
  cipher : info.cipher_id ≢ 0 → le16 b 270 ≡ info.cipher_id

assemble-Holds :
    (salt : Buffer) (info : PreauthInfo) (rsp : Buffer)
    → info.hash_id < 65536
    → info.cipher_id < 65536
    → le32 rsp rsp_context_offset ≡ offset_of_neg_context
    → Holds info (assemble_neg_contexts salt info rsp)
unfolding assemble_neg_contexts build_preauth_ctxt build_encrypt_ctxt put16 put32 put_bytes
    inc_rfc1001_len put_be32 le16 byte
assemble-Holds salt info rsp h c o = rw o (record {
  first_type = ground arith;
  first_hash = ground arith;
  count = ground arith;
  second_type = λ n. ground arith;
  one_cipher = λ n. ground arith;
  cipher = λ n. ground arith;
})

-- A request gives the contexts of a response back: their number, and the bytes from where they start.
pub record IsEcho (rsp req : Buffer) : Type 0 where
  pub count : negotiate_context_count req ≡ le16 rsp rsp_context_count
  pub bytes :
      (i : ℕ) → req (negotiate_context_offset req + 4 + i) ≡ rsp (offset_of_neg_context + 4 + i)

echo_field :
    (rsp req : Buffer)
    → IsEcho rsp req
    → (i : ℕ)
    → le16 req (negotiate_context_offset req + 4 + i) ≡ le16 rsp (offset_of_neg_context + 4 + i)
unfolding le16 byte
echo_field rsp req e i = ground (arith, e.bytes i, e.bytes (i + 1))

abbrev start : ℕ → ContextScan
start at = record { at = at; type_at = at; info = zeroed_info; status = status_invalid_parameter }

-- What deassemble_neg_contexts returns of the loop's state.
abbrev outcome : ContextScan → PreauthInfo × ℕ
outcome s = (s.info, s.status)

read_hash :
    (enc : Bool) (b : Buffer) (at n : ℕ) (info : PreauthInfo)
    → info.hash_id ≡ sha512
    → info.cipher_id ≡ 0
    → n ≡ 1
    → le16 b (at + 0) ≡ 1
    → le16 b (at + 12) ≡ 1
    → outcome (scan_contexts enc b n (start at)) ≡ (info, status_success)
unfolding scan_contexts scan_context decode_preauth_ctxt context_type hash_algorithms
read_hash enc b at n info i c one t h = rw one (ground arith)

read_cipher :
    (enc : Bool) (b : Buffer) (at n : ℕ) (info : PreauthInfo)
    → enc ≡ true
    → info.hash_id ≡ sha512
    → info.cipher_id ≡ aes128_ccm
    → n ≡ 2
    → le16 b (at + 0) ≡ 1
    → le16 b (at + 12) ≡ 1
    → le16 b (at + 48) ≡ 2
    → le16 b (at + 56) ≡ 1
    → le16 b (at + 58) ≡ 1
    → outcome (scan_contexts enc b n (start at)) ≡ (info, status_success)
unfolding scan_contexts scan_context decode_preauth_ctxt decode_encrypt_ctxt has_aes128_ccm
    context_type hash_algorithms cipher_count ciphers
read_cipher enc b at n info on i c two t h t' m v = rw two (ground arith)

-- The contexts that the server assembles for SHA-512, with or without AES-128-CCM, are read back as the
-- algorithms that they were made from, if the reader can encrypt or there is no cipher.
pub assemble-deassemble :
    (enc : Bool) (salt rsp req : Buffer) (info : PreauthInfo)
    → info.hash_id ≡ sha512
    → ((info.cipher_id ≡ 0) ⊎ ((info.cipher_id ≡ aes128_ccm) × (enc ≡ true)))
    → le32 rsp rsp_context_offset ≡ offset_of_neg_context
    → IsEcho (assemble_neg_contexts salt info rsp) req
    → deassemble_neg_contexts enc req zeroed_info ≡ (info, status_success)
unfolding deassemble_neg_contexts
assemble-deassemble enc salt rsp req info h c o e =
    let k = assemble-Holds salt info rsp (omega arith) (ground arith) o in
    let at = negotiate_context_offset req + 4 in
    let f = echo_field (assemble_neg_contexts salt info rsp) req e in
    elim c [
      | inl z ↦
          read_hash enc req at (negotiate_context_count req) info h z (ground (arith, k.count))
            (f 0 ∙ k.first_type) (f 12 ∙ k.first_hash ∙ h)
      | inr (z, on) ↦
          let n : info.cipher_id ≢ 0 = λ e. omega arith in
          read_cipher enc req at (negotiate_context_count req) info on h z (ground (arith, k.count))
            (f 0 ∙ k.first_type) (f 12 ∙ k.first_hash ∙ h) (f 48 ∙ k.second_type n)
            (f 56 ∙ k.one_cipher n) (f 58 ∙ k.cipher n ∙ z)
    ]
