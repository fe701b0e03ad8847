-- ===== src/Negotiate/Tests.antt =====
-- Negotiations with a client that speaks SMB 2.1 to 3.0.2.
use cifsd.Base.{◌≡◌, refl, true, false, [], ◌∷◌}
use cifsd.Negotiate.{
  Limits, Features, Caps, no_vals, Connection, Request, smb_protos, dialect_found, first_found,
  cifsd_lookup_dialect_by_id, choose_server, smb2_handle_negotiate, cifsd_smb_negotiate_common,
  supported_protocol,
}
use cifsd.Negotiate.Best.{IsNewest, lookup_dialect-IsNewest}
use cifsd.Negotiate.Capabilities.{IsAgreed, negotiate-IsAgreed}

abbrev features : Features
features = record {
  insecure = false;
  lease_enable = true;
  multi_channel_enable = false;
  encryption_enable = true;
}

abbrev limits : Limits
limits = record { min_protocol = 2; max_protocol = 6 }

abbrev request : Request
request = record { dialects = 0x0302 ∷ 0x0300 ∷ 0x0210 ∷ []; can_encrypt = true; packet = λ i. 0 }

abbrev bare_caps : Caps
bare_caps = record { leasing = false; large_mtu = false; multi_channel = false; encryption = false }

abbrev fresh : Connection
fresh = record {
  dialect = 0;
  need_neg = true;
  good = false;
  vals = no_vals;
  max_credits = 0;
  credits_granted = 0;
  srv_cap = bare_caps;
  cli_encryption = false;
  cipher = false;
}

abbrev in_session : Connection
in_session = record fresh { good = true; dialect = 0x0311 }

newest : cifsd_lookup_dialect_by_id false limits request.dialects ≡ 0x0302
unfolding cifsd_lookup_dialect_by_id smb_protos first_found dialect_found supported_protocol
newest = refl

lookup_dialect-IsNewest_example :
    IsNewest limits request.dialects
      (smb_protos false)
      (cifsd_lookup_dialect_by_id false limits request.dialects)
lookup_dialect-IsNewest_example = lookup_dialect-IsNewest false limits request.dialects

negotiate-IsAgreed_example :
    IsAgreed features request (cifsd_smb_negotiate_common features limits request fresh).0
unfolding cifsd_smb_negotiate_common smb2_handle_negotiate choose_server cifsd_lookup_dialect_by_id
    smb_protos first_found dialect_found supported_protocol
negotiate-IsAgreed_example = negotiate-IsAgreed features limits request fresh refl
