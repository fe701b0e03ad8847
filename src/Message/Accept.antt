-- ===== src/Message/Accept.antt =====
-- Which messages cifsd_smb2_check_message of smb2misc.c lets pass.
use cifsd.Base.{ℕ, ◌+◌, ◌≤◌, ◌<◌, ◌≡◌, ◌≢◌, ◌↔◌, ◌⊎◌, true, false, arith, get_or, test_bit}
use cifsd.Wire.{Buffer, advance, get_rfc1002_length}
use cifsd.Wire.Hdr
use cifsd.Message.{
  smb2_get_data_area_len, smb2_calc_size, fixed_size, smb2_req_struct_sizes, has_smb2_data_area,
  bad_structure_size2, length_accepted, message_len, cifsd_smb2_check_message, sized_with_area,
  command_area, limit_area,
}
use cifsd.Message.DataArea.{calc_size_bounds, le32-lt}

-- The fixed size that a request of the command may announce: that of the table, that of an error
-- packet, or the two sizes of a break acknowledgement.
abbrev pub SizeIsAllowed : Buffer → Type 0
SizeIsAllowed b =
    (get_or smb2_req_struct_sizes (Hdr.command b) 0 ≡ Hdr.structure_size2 b)
    ⊎ ((Hdr.command b ≢ 0x12) × (Hdr.status b ≢ 0) × (Hdr.structure_size2 b ≡ 9))
    ⊎ ((Hdr.command b ≡ 0x12)
        × ((Hdr.status b ≢ 0) ⊎ (Hdr.structure_size2 b ≡ 44) ⊎ (Hdr.structure_size2 b ≡ 36)))

pub record IsRequest (b : Buffer) : Type 0 where
  pub to_server : test_bit (Hdr.flags b) 0 ≡ false
  pub header_size : Hdr.structure_size b ≡ 64
  pub known_command : Hdr.command b < 0x13
  pub size_allowed : SizeIsAllowed b

bad_structure_size2_iff :
    (b : Buffer) → (bad_structure_size2 b (Hdr.command b) ≡ false) ↔ SizeIsAllowed b
unfolding bad_structure_size2
bad_structure_size2_iff b = (λ e. ground arith, λ e. ground arith)

length_accepted_iff :
    (len clc_len : ℕ)
    → 0 < clc_len
    → clc_len ≤ 135168
    → len < 4294967296
    → (length_accepted len clc_len ≡ true) ↔ (clc_len ≤ len + 1)
unfolding length_accepted
length_accepted_iff len clc_len h k w = (λ e. ground arith, λ e. ground arith)

get_rfc1002_length-lt : (b : Buffer) → get_rfc1002_length b < 16777216
unfolding get_rfc1002_length
get_rfc1002_length-lt b = omega arith

message_len-lt : (buf : Buffer) (next : ℕ) → message_len buf next < 4294967296
unfolding message_len Hdr.next_command
message_len-lt buf next = ground (arith, get_rfc1002_length-lt buf, le32-lt (advance buf next) 24)

accepted_sound :
    (buf : Buffer) (next : ℕ)
    → cifsd_smb2_check_message buf next ≡ 0
    → IsRequest (advance buf next) × (smb2_calc_size (advance buf next) ≤ message_len buf next + 1)
unfolding cifsd_smb2_check_message
accepted_sound buf next e =
    let b : Buffer = advance buf next in
    let size = calc_size_bounds b in
    let wire = message_len-lt buf next in
    let fits = (length_accepted_iff (message_len buf next) (smb2_calc_size b)) in
    ground (arith, size, wire, fits, bad_structure_size2_iff b)

accepted_complete :
    (buf : Buffer) (next : ℕ)
    → IsRequest (advance buf next)
    → smb2_calc_size (advance buf next) ≤ message_len buf next + 1
    → cifsd_smb2_check_message buf next ≡ 0
unfolding cifsd_smb2_check_message
accepted_complete buf next r e =
    let b : Buffer = advance buf next in
    let size = calc_size_bounds b r.header_size in
    let wire = message_len-lt buf next in
    let fits = (length_accepted_iff (message_len buf next) (smb2_calc_size b)) in
    ground (arith, size, wire, fits, (bad_structure_size2_iff b).1 r.size_allowed)

-- A message passes the check exactly when it is a well-formed request of a known command and its
-- calculated size exceeds its length by at most one byte, for every alternative of the length test.
pub check_message_iff :
    (buf : Buffer) (next : ℕ)
    → (cifsd_smb2_check_message buf next ≡ 0) ↔ (
        IsRequest (advance buf next)
        × (smb2_calc_size (advance buf next) ≤ message_len buf next + 1))
unfolding cifsd_smb2_check_message
check_message_iff buf next = (accepted_sound buf next, λ h. accepted_complete buf next h.0 h.1)

-- In a message that passes, a data area that is not ignored and that begins behind the fixed part
-- ends within the message, up to the one byte that the length test forgives.
pub data_area_within :
    (buf : Buffer) (next : ℕ) {off len : ℕ}
    → cifsd_smb2_check_message buf next ≡ 0
    → get_or has_smb2_data_area (Hdr.command (advance buf next)) false ≡ true
    → smb2_get_data_area_len (advance buf next) ≡ (off, len)
    → 0 < len
    → fixed_size (advance buf next) ≤ off + 1
    → off + len ≤ message_len buf next + 1
unfolding smb2_calc_size sized_with_area
data_area_within buf next e has area pos after = ground (arith, accepted_sound buf next e)

-- An offset beyond 4096 takes the data area out of the check: the message passes whenever its fixed
-- part fits, wherever the announced area ends.
pub far_area_unchecked :
    (buf : Buffer) (next : ℕ)
    → IsRequest (advance buf next)
    → 4096 < (command_area (advance buf next) (Hdr.command (advance buf next))).0
    → fixed_size (advance buf next) ≤ message_len buf next + 1
    → cifsd_smb2_check_message buf next ≡ 0
unfolding smb2_calc_size sized_with_area smb2_get_data_area_len limit_area
far_area_unchecked buf next r far fits = accepted_complete buf next r (ground arith)
