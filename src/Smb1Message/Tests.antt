-- ===== src/Smb1Message/Tests.antt =====
-- Witnesses for the check of SMB1 messages.
use cifsd.Base.{ℕ, ◌≡◌, ◌≤◌, ◌↔◌, refl, u32_mod, ◌<◌, arith, ◌==◌, if◌then◌else◌}
use cifsd.Wire.{Buffer, byte, le16, le32, get_rfc1002_length}
use cifsd.Smb1Message.{
  one_of, check_smb1_hdr, words_of, smb1_req_struct_size, bytes_of, byte_count, smb1_get_byte_count,
  smb1_calc_size, smb1_get_data_len, cifsd_smb1_check_message,
}
use cifsd.Smb1Message.Accept.{data_end, IsAccepted, smb1_check_message_iff}
use cifsd.Smb1Message.DataArea.{smb1_data_within}
use cifsd.Smb1Message.Hdr

-- An ECHO of one word and `bytes` bytes, in a packet of `len`.
abbrev echo : ℕ → ℕ → Buffer
echo len bytes i =
    if i == 3
    then len
    else if i == 4
    then 0xff
    else if i == 5
    then 0x53
    else if i == 6
    then 0x4d
    else if i == 7
    then 0x42
    else if i == 8
    then 0x2b
    else if i == 36
    then 1
    else if i == 39
    then bytes
    else 0

echo_passes : cifsd_smb1_check_message (echo 41 4) ≡ 0
unfolding cifsd_smb1_check_message check_smb1_hdr words_of smb1_req_struct_size bytes_of byte_count
    smb1_get_byte_count smb1_calc_size smb1_get_data_len Hdr.smb_protocol Hdr.smb_command
    Hdr.smb_flags Hdr.flags2 Hdr.word_count le32 le16 byte get_rfc1002_length
echo_passes = refl

short_echo_refused : cifsd_smb1_check_message (echo 40 4) ≡ 1
unfolding cifsd_smb1_check_message check_smb1_hdr words_of smb1_req_struct_size bytes_of byte_count
    smb1_get_byte_count smb1_calc_size smb1_get_data_len Hdr.smb_protocol Hdr.smb_command
    Hdr.smb_flags Hdr.flags2 Hdr.word_count le32 le16 byte get_rfc1002_length
short_echo_refused = refl

smb1_check_message_iff_example : (cifsd_smb1_check_message (echo 41 4) ≡ 0) ↔ IsAccepted (echo 41 4)
smb1_check_message_iff_example = smb1_check_message_iff (echo 41 4)

-- A TRANSACTION2 whose four bytes of data end the packet.
abbrev trans2 : Buffer
trans2 i =
    if i == 3
    then 69
    else if i == 4
    then 0xff
    else if i == 5
    then 0x53
    else if i == 6
    then 0x4d
    else if i == 7
    then 0x42
    else if i == 8
    then 0x32
    else if i == 36
    then 15
    else if i == 59
    then 4
    else if i == 61
    then 65
    else if i == 67
    then 4
    else 0

trans2_passes : cifsd_smb1_check_message trans2 ≡ 0
unfolding cifsd_smb1_check_message check_smb1_hdr words_of smb1_req_struct_size bytes_of byte_count
    smb1_get_byte_count smb1_calc_size smb1_get_data_len Hdr.smb_protocol Hdr.smb_command
    Hdr.smb_flags Hdr.flags2 Hdr.word_count Hdr.trans_data_offset Hdr.trans_data_count le32 le16
    byte get_rfc1002_length
trans2_passes = refl

trans2_small : data_end trans2 < u32_mod
unfolding one_of Hdr.smb_command Hdr.trans_data_offset Hdr.trans_data_count le16 byte
trans2_small = omega arith

smb1_data_within_example : data_end trans2 ≤ get_rfc1002_length trans2
smb1_data_within_example = smb1_data_within trans2 trans2_passes trans2_small
