-- ===== src/Smb1Message/DataArea.antt =====
-- Where the data of an SMB1 message that passes the check lies.
use cifsd.Base.{◌+◌, ◌≡◌, ◌≤◌, ◌<◌, inr, arith, u32_mod}
use cifsd.Wire.{Buffer, byte, le16, get_rfc1002_length}
use cifsd.Smb1Message.{write_andx, one_of, cifsd_smb1_check_message, smb1_get_data_len}
use cifsd.Smb1Message.Accept.{
  write_area_length, data_end, IsRequest, IsAccepted-sound, accepted_complete,
}
use cifsd.Smb1Message.Hdr

-- In a message that passes, the data of a WRITE_ANDX, a TRANSACTION or a TRANSACTION2 ends within the
-- length, if its offset and its length add up to less than 2 ^ 32.
pub smb1_data_within :
    (b : Buffer)
    → cifsd_smb1_check_message b ≡ 0
    → data_end b < u32_mod
    → data_end b ≤ get_rfc1002_length b
unfolding smb1_get_data_len one_of
smb1_data_within b e small = let fits = (IsAccepted-sound b e).data_fits in ground (arith, fits)

-- A WRITE_ANDX whose offset and length wrap passes, whatever its length is.
pub wrapped_write_passes :
    (b : Buffer)
    → IsRequest b
    → Hdr.smb_command b ≡ write_andx
    → Hdr.write_data_offset b ≤ get_rfc1002_length b
    → u32_mod ≤ Hdr.write_data_offset b + write_area_length b
    → cifsd_smb1_check_message b ≡ 0
unfolding smb1_get_data_len Hdr.data_length_low Hdr.data_length_high le16 byte
wrapped_write_passes b r c o w =
    accepted_complete b (record { request = r; data_fits = ground arith; whole_or_write = inr c })
