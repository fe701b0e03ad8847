-- ===== src/NegContexts/Read.antt =====
-- Which contexts deassemble_neg_contexts of smb2pdu.c accepts, and what it takes from them.
use cifsd.Base.{
  ℕ, zero, suc, ◌+◌, ◌≡◌, ◌≢◌, ◌≤◌, ◌↔◌, ◌⊎◌, inl, inr, refl, Bool, true, false, some, arith, ◌==◌,
  if◌then◌else◌, if_elim, Bool-cases,
}
use cifsd.Wire.{Buffer}
use cifsd.Wire.Request.{negotiate_context_offset, negotiate_context_count}
use cifsd.NegContexts.{
  status_success, status_invalid_parameter, preauth_integrity_capabilities, encryption_capabilities,
  sha512, PreauthInfo, zeroed_info, preauth_stride, context_type, hash_algorithms,
  decode_preauth_ctxt, decode_encrypt_ctxt, ContextScan, scan_context, scan_contexts,
  deassemble_neg_contexts, contexts_of,
}

-- What a round keeps of the state once the hash is agreed on.
pub IsHashed : ContextScan → Type 0
IsHashed s = (s.info.hash_id ≡ sha512) × (s.status ≡ status_success)

step-IsHashed :
    (enc : Bool) (b : Buffer) (s : ContextScan) → IsHashed s → IsHashed (scan_context enc b s).0
unfolding IsHashed scan_context decode_encrypt_ctxt
step-IsHashed enc b s h = (ground arith, ground arith)

scan-IsHashed :
    (enc : Bool) (b : Buffer) (n : ℕ) (s : ContextScan)
    → IsHashed s
    → IsHashed (scan_contexts enc b n s)
unfolding scan_contexts IsHashed
scan-IsHashed enc b zero s h = h
scan-IsHashed enc b (suc n) s h =
    let k = step-IsHashed enc b s h in
    let r = scan-IsHashed enc b n (scan_context enc b s).0 k in
    if_elim IsHashed (scan_context enc b s).1 k
      (if_elim IsHashed ((scan_context enc b s).0.status == status_success) r k)

-- The loop's state at the first context.
abbrev pub start : ℕ → PreauthInfo → ContextScan
start at info = record { at = at; type_at = at; info = info; status = status_invalid_parameter }

first_accepted :
    (enc : Bool) (b : Buffer) (at : ℕ)
    → context_type b at ≡ preauth_integrity_capabilities
    → hash_algorithms b at ≡ sha512
    → IsHashed (scan_context enc b (start at zeroed_info)).0
unfolding scan_context decode_preauth_ctxt IsHashed
first_accepted enc b at t h = (ground arith, ground arith)

first_refused :
    (enc : Bool) (b : Buffer) (at : ℕ)
    → ((context_type b at ≢ preauth_integrity_capabilities) ⊎ (hash_algorithms b at ≢ sha512))
    → (scan_context enc b (start at zeroed_info)).0.status ≢ status_success
unfolding scan_context decode_preauth_ctxt
first_refused enc b at h e = ground arith

accepted :
    (enc : Bool) (b : Buffer) (at n : ℕ)
    → 1 ≤ n
    → context_type b at ≡ preauth_integrity_capabilities
    → hash_algorithms b at ≡ sha512
    → (scan_contexts enc b n (start at zeroed_info)).status ≡ status_success
unfolding scan_contexts IsHashed
accepted enc b at zero p t h = absurd (omega arith)
accepted enc b at (suc n) p t h =
    let k = first_accepted enc b at t h in
    let r = scan-IsHashed enc b n (scan_context enc b (start at zeroed_info)).0 k in ground arith

refused :
    (enc : Bool) (b : Buffer) (at n : ℕ)
    → ((context_type b at ≢ preauth_integrity_capabilities) ⊎ (hash_algorithms b at ≢ sha512))
    → (scan_contexts enc b n (start at zeroed_info)).status ≢ status_success
unfolding scan_contexts
refused enc b at zero h e = ground arith
refused enc b at (suc n) h e = let k = first_refused enc b at h in ground arith

positive :
    (enc : Bool) (b : Buffer) (at n : ℕ)
    → (scan_contexts enc b n (start at zeroed_info)).status ≡ status_success
    → 1 ≤ n
unfolding scan_contexts
positive enc b at zero e = ground arith
positive enc b at (suc n) e = omega arith

needed :
    (enc : Bool) (b : Buffer) (at n : ℕ)
    → (scan_contexts enc b n (start at zeroed_info)).status ≡ status_success
    → (1 ≤ n)
      × (context_type b at ≡ preauth_integrity_capabilities)
      × (hash_algorithms b at ≡ sha512)
needed enc b at n e = elim (Bool-cases (context_type b at == preauth_integrity_capabilities)) [
  | inl t ↦ elim (Bool-cases (hash_algorithms b at == sha512)) [
    | inl h ↦ (positive enc b at n e, ground arith, ground arith)
    | inr h ↦ absurd (refused enc b at n (inr (ground arith)) e)
  ]
  | inr t ↦ absurd (refused enc b at n (inl (ground arith)) e)
]

-- The packet has a context, and the first one is a preauth integrity context for SHA-512.
pub record HasHash (req : Buffer) : Type 0 where
  pub some_context : 1 ≤ negotiate_context_count req
  pub first_type :
      context_type req (negotiate_context_offset req + 4) ≡ preauth_integrity_capabilities
  pub first_hash : hash_algorithms req (negotiate_context_offset req + 4) ≡ sha512

-- On a new connection, deassemble_neg_contexts succeeds if and only if the first context is a preauth
-- integrity context whose first hash is SHA-512, whatever follows it.
pub deassemble-success_iff :
    (enc : Bool) (req : Buffer)
    → ((deassemble_neg_contexts enc req zeroed_info).1 ≡ status_success) ↔ HasHash req
unfolding deassemble_neg_contexts
deassemble-success_iff enc req = (to, from)
  where
    at : ℕ
    at = negotiate_context_offset req + 4

    to :
        (scan_contexts enc req (negotiate_context_count req) (start at zeroed_info)).status
          ≡ status_success
        → HasHash req
    to e =
        let r = needed enc req at (negotiate_context_count req) e in
        record { some_context = r.0; first_type = r.1; first_hash = r.2 }

    from :
        HasHash req
        → (scan_contexts enc req (negotiate_context_count req) (start at zeroed_info)).status
          ≡ status_success
    from h =
        accepted enc req at (negotiate_context_count req) h.some_context h.first_type h.first_hash

-- The loop stands at a context of a kind that it does not know, with success and no cipher.
record IsStuck (b : Buffer) (s : ContextScan) : Type 0 where
  ok : s.status ≡ status_success
  no_hash : context_type b s.type_at ≢ preauth_integrity_capabilities
  no_encryption : context_type b s.type_at ≢ encryption_capabilities
  no_cipher : s.info.cipher_id ≡ 0

step-IsStuck :
    (enc : Bool) (b : Buffer) (s : ContextScan) → IsStuck b s → scan_context enc b s ≡ (s, false)
unfolding scan_context
step-IsStuck enc b s h = ground arith

scan-IsStuck :
    (enc : Bool) (b : Buffer) (n : ℕ) (s : ContextScan) → IsStuck b s → scan_contexts enc b n s ≡ s
unfolding scan_contexts
scan-IsStuck enc b zero s h = refl
scan-IsStuck enc b (suc n) s h =
    let e = step-IsStuck enc b s h in
    let r = scan-IsStuck enc b n s h in
    rw e (go (s.status == status_success) (ground (arith, h.ok)) r)
  where
    go :
        (c : Bool)
        → c ≡ true
        → scan_contexts enc b n s ≡ s
        → (if c then scan_contexts enc b n s else s) ≡ s
    go true e r = r
    go false e r = refl

scan_after_hash :
    (enc : Bool) (b : Buffer) (at n : ℕ)
    → context_type b at ≡ preauth_integrity_capabilities
    → hash_algorithms b at ≡ sha512
    → scan_contexts enc b (suc n) (start at zeroed_info)
      ≡ scan_contexts enc b n (record {
        at = at + preauth_stride;
        type_at = at + preauth_stride;
        info = record { hash_id = sha512; cipher_id = 0 };
        status = status_success;
      })
unfolding scan_contexts scan_context decode_preauth_ctxt
scan_after_hash enc b at n t h = ground arith

-- A context of a kind other than the two, in the second place, hides every context behind it: no cipher is
-- found, whatever the packet has there.
pub second_hides_cipher :
    (enc : Bool) (req : Buffer)
    → HasHash req
    → context_type req (negotiate_context_offset req + 4 + preauth_stride)
      ≢ preauth_integrity_capabilities
    → context_type req (negotiate_context_offset req + 4 + preauth_stride) ≢ encryption_capabilities
    → contexts_of enc req ≡ some false
unfolding contexts_of deassemble_neg_contexts
second_hides_cipher enc req h a e =
    let s = found (negotiate_context_count req) h.some_context in ground (arith, s)
  where
    found :
        (n : ℕ)
        → 1 ≤ n
        → scan_contexts enc req n (start (negotiate_context_offset req + 4) zeroed_info) ≡ record {
          at = negotiate_context_offset req + 4 + preauth_stride;
          type_at = negotiate_context_offset req + 4 + preauth_stride;
          info = record { hash_id = sha512; cipher_id = 0 };
          status = status_success;
        }
    found zero p = absurd (omega arith)
    found (suc n) p =
        rw (scan_after_hash enc req (negotiate_context_offset req + 4) n h.first_type h.first_hash)
          (scan-IsStuck enc req n _
            (record { ok = refl; no_hash = a; no_encryption = e; no_cipher = refl }))
