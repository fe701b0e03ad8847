-- ===== src/Negotiate.antt =====
-- The choice of a dialect: cifsd_lookup_dialect_by_id and cifsd_smb_negotiate_common of smb_common.c,
-- smb2_handle_negotiate of smb2pdu.c as far as the connection goes, and the init_smb2_*_server of
-- smb2ops.c. The negotiate contexts are read from the packet as NegContexts has it.
pub mod Best
pub mod Capabilities
mod Tests
use cifsd.Base.{
  is_empty, ℕ, ◌+◌, Bool, true, false, not, ◌&&◌, ◌||◌, Option, none, some, List, [], ◌∷◌, ltb, leb,
  ◌==◌, if◌then◌else◌,
}
use cifsd.Wire.{Buffer}
use cifsd.NegContexts.{contexts_of}

abbrev pub bad_prot_id : ℕ
bad_prot_id = 0xffff

-- An entry of smb_protos.
pub record Protocol : Type 0 where
  pub index : ℕ
  pub prot_id : ℕ

-- smb_protos from its end, which the loop starts at; the last two need CONFIG_CIFS_INSECURE_SERVER.
pub smb_protos : Bool → List Protocol
smb_protos insecure =
    record { index = 6; prot_id = 0x0311 }
    ∷ record { index = 5; prot_id = 0x0302 }
    ∷ record { index = 4; prot_id = 0x0300 }
    ∷ record { index = 3; prot_id = 0x02ff }
    ∷ record { index = 2; prot_id = 0x0210 }
    ∷ (if insecure
        then record { index = 1; prot_id = 0x0202 } ∷ record { index = 0; prot_id = 0 } ∷ []
        else [])

-- The protocols that `server_conf` allows.
pub record Limits : Type 0 where
  pub min_protocol : ℕ
  pub max_protocol : ℕ

pub supported_protocol : Limits → ℕ → Bool
supported_protocol conf idx = leb conf.min_protocol idx && leb idx conf.max_protocol

-- The inner loop, over the client's dialects in the order in which it reads them.
pub dialect_found : Limits → Protocol → List ℕ → Bool
unfolding supported_protocol
dialect_found conf proto [] = false
dialect_found conf proto (d ∷ ds) =
    let rest = dialect_found conf proto ds in
    if not (d == proto.prot_id)
    then rest
    else if supported_protocol conf proto.index
    then true
    else rest

-- The outer loop.
pub first_found : Limits → List Protocol → List ℕ → ℕ
first_found conf [] dialects = bad_prot_id
first_found conf (proto ∷ protos) dialects =
    let later = first_found conf protos dialects in
    if dialect_found conf proto dialects then proto.prot_id else later

pub cifsd_lookup_dialect_by_id : Bool → Limits → List ℕ → ℕ
unfolding smb_protos first_found
cifsd_lookup_dialect_by_id insecure conf dialects = first_found conf (smb_protos insecure) dialects

-- The switches of the server that the capabilities depend on, and CONFIG_CIFS_INSECURE_SERVER.
pub record Features : Type 0 where
  pub insecure : Bool
  pub lease_enable : Bool
  pub multi_channel_enable : Bool
  pub encryption_enable : Bool

-- The capability bits that the server announces.
pub record Caps : Type 0 where
  pub leasing : Bool
  pub large_mtu : Bool
  pub multi_channel : Bool
  pub encryption : Bool

-- The protocol values that `vals` points to.
pub data Vals : Type 0 where
  no_vals smb20 smb21 smb30 smb302 smb311 : Vals

-- struct cifsd_tcp_conn as far as the negotiation goes; `good` is CifsGood, `cli_encryption` the
-- client's capability, `cipher` whether a cipher was agreed on.
pub record Connection : Type 0 where
  pub dialect : ℕ
  pub need_neg : Bool
  pub good : Bool
  pub vals : Vals
  pub max_credits : ℕ
  pub credits_granted : ℕ
  pub srv_cap : Caps
  pub cli_encryption : Bool
  pub cipher : Bool

no_caps : Caps
no_caps = record { leasing = false; large_mtu = false; multi_channel = false; encryption = false }

-- init_smb2_0_server is there with CONFIG_CIFS_INSECURE_SERVER only.
pub init_smb2_0_server : Bool → Connection → Option Connection
unfolding no_caps
init_smb2_0_server insecure c =
    if insecure
    then some
        (record c { vals = smb20; max_credits = 8192; credits_granted = 0; srv_cap = no_caps })
    else none

pub init_smb2_1_server : Features → Connection → Connection
init_smb2_1_server f c = record c {
  vals = smb21;
  max_credits = 8192;
  srv_cap = record {
    leasing = f.lease_enable;
    large_mtu = true;
    multi_channel = false;
    encryption = false;
  };
}

-- init_smb3_0_server, and with `smb302` init_smb3_02_server.
pub init_smb3_0_server : Vals → Features → Connection → Connection
init_smb3_0_server v f c = record c {
  vals = v;
  max_credits = 8192;
  srv_cap = record {
    leasing = f.lease_enable;
    large_mtu = true;
    multi_channel = f.multi_channel_enable;
    encryption = f.encryption_enable && c.cli_encryption;
  };
}

pub init_smb3_11_server : Features → Connection → Connection
init_smb3_11_server f c = record c {
  vals = smb311;
  max_credits = 8192;
  srv_cap = record {
    leasing = f.lease_enable;
    large_mtu = true;
    multi_channel = f.multi_channel_enable;
    encryption = c.cipher;
  };
}

pub cifsd_init_smb2_server_common : Features → Connection → Connection
unfolding init_smb2_0_server init_smb2_1_server
cifsd_init_smb2_server_common f c = elim (init_smb2_0_server f.insecure c) [
  | none ↦ init_smb2_1_server f c
  | some c' ↦ c'
]

pub data Reply : Type 0 where
  negotiated no_response malformed bad_contexts not_supported : Reply

-- The request: the client's dialects, whether it can encrypt, and the packet, for its contexts.
pub record Request : Type 0 where
  pub dialects : List ℕ
  pub can_encrypt : Bool
  pub packet : Buffer

-- The `switch` of smb2_handle_negotiate over the dialect.
pub choose_server : Features → Request → Connection → Connection × Reply
unfolding init_smb2_1_server init_smb3_0_server init_smb3_11_server cifsd_init_smb2_server_common
choose_server f r c =
    if c.dialect == 0x0311
    then elim (contexts_of f.encryption_enable r.packet) [
      | none ↦ (c, bad_contexts)
      | some cipher ↦ (init_smb3_11_server f (record c { cipher = cipher }), negotiated)
    ]
    else if c.dialect == 0x0302
    then (init_smb3_0_server smb302 f c, negotiated)
    else if c.dialect == 0x0300
    then (init_smb3_0_server smb30 f c, negotiated)
    else if c.dialect == 0x0210
    then (init_smb2_1_server f c, negotiated)
    else if c.dialect == 0x0202
    then (cifsd_init_smb2_server_common f c, negotiated)
    else (c, not_supported)

pub smb2_handle_negotiate : Features → Request → Connection → Connection × Reply
smb2_handle_negotiate f r c =
    if c.good
    then (record c { need_neg = false }, no_response)
    else if is_empty r.dialects
    then (record c { need_neg = false }, malformed)
    else choose_server f r (record c { need_neg = false; cli_encryption = r.can_encrypt })

-- cifsd_smb_negotiate_common for an SMB2 request.
pub cifsd_smb_negotiate_common : Features → Limits → Request → Connection → Connection × Reply
unfolding cifsd_lookup_dialect_by_id smb2_handle_negotiate
cifsd_smb_negotiate_common f conf r c =
    smb2_handle_negotiate f r
      (record c { dialect = cifsd_lookup_dialect_by_id f.insecure conf r.dialects })
