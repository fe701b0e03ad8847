-- ===== src/Negotiate/Capabilities.antt =====
-- What a negotiation of smb2pdu.c leaves in the connection.
use mathlib.Core.Path.{subst}
use cifsd.Base.{
  sym, ap, ℕ, ◌≡◌, ◌≤◌, refl, sym, ap, ◌∙◌, ◌⊎◌, inl, inr, Bool, true, false, some, List, arith,
}
use cifsd.Negotiate.{
  smb_protos, Limits, first_found, cifsd_lookup_dialect_by_id, Features, Connection,
  init_smb2_0_server, init_smb2_1_server, init_smb3_0_server, init_smb3_11_server,
  cifsd_init_smb2_server_common, negotiated, no_response, Request, choose_server,
  smb2_handle_negotiate, cifsd_smb_negotiate_common,
}
use cifsd.NegContexts.{contexts_of}
use cifsd.NegContexts.Cipher.{IsListed, contexts_of-IsAgreed}
use cifsd.Negotiate.Best.{IsNewest, lookup_dialect-IsNewest}

-- The capabilities keep to the switches of the server, to the dialect, and to the client.
pub record IsAgreed (f : Features) (r : Request) (c : Connection) : Type 0 where
  pub open_no_more : c.need_neg ≡ false
  pub credits : c.max_credits ≡ 8192
  pub leases : c.srv_cap.leasing ≡ true → (f.lease_enable ≡ true) × (0x0210 ≤ c.dialect)
  pub channels :
      c.srv_cap.multi_channel ≡ true → (f.multi_channel_enable ≡ true) × (0x0300 ≤ c.dialect)
  pub encrypts :
      c.srv_cap.encryption ≡ true
      → ((c.dialect ≡ 0x0311) × (contexts_of f.encryption_enable r.packet ≡ some true))
        ⊎ ((f.encryption_enable ≡ true) × (r.can_encrypt ≡ true) × (0x0300 ≤ c.dialect))

choose_server-IsAgreed :
    (f : Features) (r : Request) (c : Connection)
    → c.need_neg ≡ false
    → c.cli_encryption ≡ r.can_encrypt
    → (c.dialect ≡ 0x0202 → f.insecure ≡ true)
    → (choose_server f r c).1 ≡ negotiated
    → IsAgreed f r (choose_server f r c).0
unfolding choose_server init_smb2_0_server init_smb2_1_server init_smb3_0_server init_smb3_11_server
    cifsd_init_smb2_server_common
choose_server-IsAgreed f r c n k old e = record {
  open_no_more = ground arith;
  credits = ground arith;
  leases = λ h. (ground arith, ground arith);
  channels = λ h. (ground arith, ground arith);
  encrypts = λ h. ground arith;
}

abbrev received : Request → Connection → Connection
received r c = record c { need_neg = false; cli_encryption = r.can_encrypt }

handled :
    (f : Features) (r : Request) (c : Connection)
    → (smb2_handle_negotiate f r c).1 ≡ negotiated
    → smb2_handle_negotiate f r c ≡ choose_server f r (received r c)
unfolding smb2_handle_negotiate
handled f r c e = ground arith

handle-IsAgreed :
    (f : Features) (r : Request) (c : Connection)
    → (c.dialect ≡ 0x0202 → f.insecure ≡ true)
    → (smb2_handle_negotiate f r c).1 ≡ negotiated
    → IsAgreed f r (smb2_handle_negotiate f r c).0
handle-IsAgreed f r c old e =
    let h = handled f r c e in
    rw h (choose_server-IsAgreed f r (received r c) refl refl old (ap (λ x. x.1) (sym h) ∙ e))

-- SMB 2.0.2 is chosen only where the server is built for it.
lookup_old :
    (insecure : Bool) (conf : Limits) (dialects : List ℕ)
    → cifsd_lookup_dialect_by_id insecure conf dialects ≡ 0x0202
    → insecure ≡ true
unfolding cifsd_lookup_dialect_by_id smb_protos first_found
lookup_old true conf dialects e = refl
lookup_old false conf dialects e = absurd (ground arith)

-- A negotiation that succeeds announces leases and several channels only if the server has them,
-- leases from SMB 2.1 on, channels and encryption from SMB 3.0 on; encryption needs the client's consent, by a cipher of
-- its contexts for SMB 3.1.1 and by its capability before.
pub negotiate-IsAgreed :
    (f : Features) (conf : Limits) (r : Request) (c : Connection)
    → (cifsd_smb_negotiate_common f conf r c).1 ≡ negotiated
    → IsAgreed f r (cifsd_smb_negotiate_common f conf r c).0
unfolding cifsd_smb_negotiate_common
negotiate-IsAgreed f conf r c e =
    handle-IsAgreed f r
      (record c { dialect = cifsd_lookup_dialect_by_id f.insecure conf r.dialects })
      (lookup_old f.insecure conf r.dialects) e

-- A negotiation that succeeds announces encryption only if the server encrypts and the client agrees: for
-- SMB 3.1.1 a context of its packet lists AES-128-CCM, and before that its capabilities say so.
pub announced-encryption :
    (f : Features) (conf : Limits) (r : Request) (c : Connection)
    → (cifsd_smb_negotiate_common f conf r c).1 ≡ negotiated
    → (cifsd_smb_negotiate_common f conf r c).0.srv_cap.encryption ≡ true
    → (f.encryption_enable ≡ true) × (((at : ℕ) × IsListed r.packet at) ⊎ (r.can_encrypt ≡ true))
announced-encryption f conf r c e on = elim ((negotiate-IsAgreed f conf r c e).encrypts on) [
  | inl (_, k) ↦
      let a = contexts_of-IsAgreed f.encryption_enable r.packet k in
      (a.enabled, inl (a.context, a.listed))
  | inr (enabled, can, _) ↦ (enabled, inr can)
]

in_use :
    (f : Features) (r : Request) (c : Connection)
    → c.good ≡ true
    → smb2_handle_negotiate f r c ≡ (record c { need_neg = false }, no_response)
unfolding smb2_handle_negotiate
in_use f r c g = ground arith

renegotiated :
    (f : Features) (conf : Limits) (r : Request) (c : Connection)
    → c.good ≡ true
    → cifsd_smb_negotiate_common f conf r c ≡ (
      record c {
        dialect = cifsd_lookup_dialect_by_id f.insecure conf r.dialects;
        need_neg = false;
      },
      no_response,
    )
unfolding cifsd_smb_negotiate_common
renegotiated f conf r c g =
    in_use f r (record c { dialect = cifsd_lookup_dialect_by_id f.insecure conf r.dialects }) g

-- A second negotiation on a connection that is in use is not answered and leaves its protocol values
-- and capabilities, but the dialect of the connection becomes the best one of the new request, or
-- BAD_PROT_ID.
pub renegotiation_changes_dialect :
    (f : Features) (conf : Limits) (r : Request) (c : Connection)
    → c.good ≡ true
    → let (c', reply) = cifsd_smb_negotiate_common f conf r c in
      (reply ≡ no_response)
      × (c'.vals ≡ c.vals)
      × (c'.srv_cap ≡ c.srv_cap)
      × IsNewest conf r.dialects (smb_protos f.insecure) c'.dialect
renegotiation_changes_dialect f conf r c g =
    let e = renegotiated f conf r c g in
    (
      ap (λ p. p.1) e,
      ap (λ p. p.0.vals) e,
      ap (λ p. p.0.srv_cap) e,
      subst (IsNewest conf r.dialects (smb_protos f.insecure)) (sym (ap (λ p. p.0.dialect) e))
          (lookup_dialect-IsNewest f.insecure conf r.dialects),
    )
