-- ===== src/NegContexts/Cipher.antt =====
-- Where the cipher that deassemble_neg_contexts of smb2pdu.c agrees on comes from.
use cifsd.Base.{
  ℕ, zero, suc, ◌+◌, ◌≡◌, ◌<◌, ◌⊎◌, inl, inr, refl, Bool, true, false, some, arith, ◌==◌, if_elim,
  Bool-cases,
}
use cifsd.Wire.{Buffer}
use cifsd.Wire.Request.{negotiate_context_offset, negotiate_context_count}
use cifsd.NegContexts.{
  status_success, aes128_ccm, PreauthInfo, zeroed_info, cipher_count, ciphers, decode_preauth_ctxt,
  has_aes128_ccm, decode_encrypt_ctxt, ContextScan, scan_context, scan_contexts,
  deassemble_neg_contexts, contexts_of,
}
use cifsd.NegContexts.Read.{start}

-- The encryption context lists AES-128-CCM.
pub IsListed : Buffer → ℕ → Type 0
IsListed b at = (i : ℕ) × (i < cipher_count b at) × (ciphers b at i ≡ aes128_ccm)

listed_from :
    (b : Buffer) (at i n : ℕ)
    → has_aes128_ccm b at i n ≡ true
    → (j : ℕ) × (j < i + n) × (ciphers b at j ≡ aes128_ccm)
unfolding has_aes128_ccm
listed_from b at i zero e = absurd (ground arith)
listed_from b at i (suc n) e = elim (Bool-cases (ciphers b at i == aes128_ccm)) [
  | inl h ↦ (i, omega arith, ground arith)
  | inr h ↦ let r = listed_from b at (i + 1) n (ground arith) in (r.0, omega (arith, r.1), r.2)
]

-- The server encrypts, and a context lists AES-128-CCM.
pub record IsAgreed (enc : Bool) (b : Buffer) : Type 0 where
  pub enabled : enc ≡ true
  pub context : ℕ
  pub listed : IsListed b context

abbrev pub NoneOrAgreed : Bool → Buffer → ℕ → Type 0
NoneOrAgreed enc b cipher = (cipher ≡ 0) ⊎ IsAgreed enc b

decode-IsAgreed :
    (enc : Bool) (b : Buffer) (at : ℕ) (info : PreauthInfo)
    → NoneOrAgreed enc b (decode_encrypt_ctxt enc b at info).cipher_id
unfolding decode_encrypt_ctxt IsListed
decode-IsAgreed false b at info = inl refl
decode-IsAgreed true b at info = elim (Bool-cases (has_aes128_ccm b at 0 (cipher_count b at))) [
  | inl e ↦
      let r = listed_from b at 0 (cipher_count b at) e in
      inr (record { enabled = refl; context = at; listed = (r.0, omega (arith, r.1), r.2) })
  | inr e ↦ inl (ground arith)
]

step_cipher :
    (enc : Bool) (b : Buffer) (s : ContextScan)
    → ((scan_context enc b s).0.info.cipher_id ≡ s.info.cipher_id)
      ⊎ ((scan_context enc b s).0.info.cipher_id
          ≡ (decode_encrypt_ctxt enc b s.at s.info).cipher_id)
unfolding scan_context decode_preauth_ctxt
step_cipher enc b s = ground arith

step-IsAgreed :
    (enc : Bool) (b : Buffer) (s : ContextScan)
    → NoneOrAgreed enc b s.info.cipher_id
    → NoneOrAgreed enc b (scan_context enc b s).0.info.cipher_id
step-IsAgreed enc b s h = elim (step_cipher enc b s) [
  | inl e ↦ rw e h
  | inr e ↦ rw e (decode-IsAgreed enc b s.at s.info)
]

scan-IsAgreed :
    (enc : Bool) (b : Buffer) (n : ℕ) (s : ContextScan)
    → NoneOrAgreed enc b s.info.cipher_id
    → NoneOrAgreed enc b (scan_contexts enc b n s).info.cipher_id
unfolding scan_contexts
scan-IsAgreed enc b zero s h = h
scan-IsAgreed enc b (suc n) s h =
    let k = step-IsAgreed enc b s h in
    let r = scan-IsAgreed enc b n (scan_context enc b s).0 k in
    if_elim (λ (s : ContextScan). NoneOrAgreed enc b s.info.cipher_id) (scan_context enc b s).1 k
      (if_elim (λ (s : ContextScan). NoneOrAgreed enc b s.info.cipher_id)
        ((scan_context enc b s).0.status == status_success) r k)

-- If smb2_handle_negotiate learns of a cipher, then the server encrypts and a context of the packet lists
-- AES-128-CCM.
pub contexts_of-IsAgreed :
    (enc : Bool) (req : Buffer) → contexts_of enc req ≡ some true → IsAgreed enc req
unfolding contexts_of deassemble_neg_contexts
contexts_of-IsAgreed enc req e =
    elim (scan-IsAgreed enc req (negotiate_context_count req)
      (start (negotiate_context_offset req + 4) zeroed_info) (inl refl)) [
        | inl z ↦ absurd (ground arith)
        | inr a ↦ a
      ]
