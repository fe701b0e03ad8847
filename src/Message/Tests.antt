-- ===== src/Message/Tests.antt =====
-- A session setup request with a security buffer of ten bytes, and one that points far away.
use cifsd.Base.{ℕ, ◌+◌, ◌≤◌, ◌≡◌, ◌↔◌, refl, inl, arith, List, [], ◌∷◌, ◌==◌, if◌then◌else◌, some}
use cifsd.Wire.{Buffer, advance, le32, get_rfc1002_length}
use cifsd.Wire.Hdr
use cifsd.Wire.Request
use cifsd.Message.{
  smb2_get_data_area_len, smb2_calc_size, cifsd_smb2_check_message, message_len,
  get_neg_context_size, neg_contexts_len, context_step, length_accepted, bad_structure_size2,
}
use cifsd.Message.Accept.{IsRequest, check_message_iff}

-- The bytes that are not 0.
abbrev packet : List (ℕ × ℕ) → Buffer
packet [] i = 0
packet ((at, v) ∷ rest) i = if at == i then v else packet rest i

abbrev setup : Buffer
setup = packet ((3, 98) ∷ (8, 64) ∷ (16, 1) ∷ (68, 25) ∷ (80, 88) ∷ (82, 10) ∷ [])

abbrev far_setup : Buffer
far_setup = packet ((3, 89) ∷ (8, 64) ∷ (16, 1) ∷ (68, 25) ∷ (81, 255) ∷ (82, 10) ∷ [])

abbrev negotiate : Buffer
negotiate = packet ((96, 112) ∷ (100, 2) ∷ (116, 1) ∷ (164, 2) ∷ [])

setup_passes : cifsd_smb2_check_message setup 0 ≡ 0
unfolding cifsd_smb2_check_message smb2_calc_size smb2_get_data_area_len message_len
    get_rfc1002_length Hdr.flags Hdr.structure_size Hdr.structure_size2 Hdr.command Hdr.status
    Hdr.next_command le32 length_accepted bad_structure_size2 Request.security_buffer_length
    Request.security_buffer_offset
setup_passes = refl

check_message_iff_example :
    (cifsd_smb2_check_message setup 0 ≡ 0)
    ↔ (IsRequest (advance setup 0) × (smb2_calc_size (advance setup 0) ≤ message_len setup 0 + 1))
check_message_iff_example = check_message_iff setup 0

setup_area : smb2_get_data_area_len (advance setup 0) ≡ (88, 10)
unfolding smb2_get_data_area_len Hdr.status Hdr.command Hdr.structure_size2 le32
    Request.security_buffer_length Request.security_buffer_offset
setup_area = refl

far_IsRequest : IsRequest (advance far_setup 0)
unfolding Hdr.flags Hdr.structure_size Hdr.structure_size2 Hdr.command Hdr.status le32
far_IsRequest = record {
  to_server = refl;
  header_size = refl;
  known_command = omega arith;
  size_allowed = inl refl;
}

negotiate_area : get_neg_context_size negotiate ≡ some (112, 62)
unfolding get_neg_context_size neg_contexts_len context_step Request.negotiate_context_offset
    Request.negotiate_context_count le32
negotiate_area = refl
