-- ===== src/Smb1Message.antt =====
-- smb1misc.c: the check of a received SMB1 message. An `int` that holds a length is held as its
-- 32-bit pattern, as the comparison with an unsigned length reads it.
pub mod Hdr
pub mod Tables
pub mod Accept
pub mod DataArea
mod Tests
use cifsd.Base.{
  ℕ, ◌+◌, ◌*◌, ◌-◌, Bool, true, false, not, ◌&&◌, ◌||◌, List, [], ◌∷◌, ltb, leb, ◌==◌,
  if◌then◌else◌, test_bit, u32_mod, add32,
}
use cifsd.Wire.{Buffer, le16, get_rfc1002_length}
use cifsd.Smb1Message.Hdr

-- EINVAL and EOPNOTSUPP apart from a count.
pub data Count : Type 0 where
  count : ℕ → Count
  invalid not_supported : Count

abbrev pub write_andx : ℕ
write_andx = 0x2f

-- The labels of one `case`.
pub one_of : ℕ → List ℕ → Bool
one_of c [] = false
one_of c (d ∷ ds) = c == d || one_of c ds

unfoldable pub check_smb1_hdr : Buffer → Bool
check_smb1_hdr b = not (Hdr.smb_protocol b == 0x424d53ff) || test_bit (Hdr.smb_flags b) 7

pub checked_count : Bool → ℕ → Count
checked_count c n = if c then count n else invalid

-- The `switch` on the command: how many words the command has.
pub words_of : ℕ → ℕ → Count
unfolding one_of checked_count
words_of c wc =
    if one_of c (0x00 ∷ 0x01 ∷ 0x08 ∷ 0x71 ∷ 0x72 ∷ 0xa4 ∷ 0x10 ∷ 0x11 ∷ [])
    then checked_count (wc == 0) wc
    else if one_of c (0x05 ∷ 0x06 ∷ 0x07 ∷ 0x2b ∷ 0x34 ∷ [])
    then checked_count (wc == 1) wc
    else if one_of c (0x74 ∷ [])
    then checked_count (wc == 2) wc
    else if one_of c (0x04 ∷ [])
    then checked_count (wc == 3) wc
    else if one_of c (0x75 ∷ 0xa5 ∷ [])
    then checked_count (wc == 4) wc
    else if one_of c (0x0b ∷ [])
    then checked_count (wc == 5) wc
    else if one_of c (0x09 ∷ 0x24 ∷ [])
    then checked_count (wc == 8) wc
    else if one_of c (0x25 ∷ [])
    then checked_count (leb 0xe wc) wc
    else if one_of c (0x73 ∷ [])
    then checked_count (wc == 0xc) wc
    else if one_of c (0x2d ∷ 0x32 ∷ [])
    then checked_count (wc == 0xf) wc
    else if one_of c (0xa2 ∷ [])
    then checked_count (wc == 0x18) wc
    else if one_of c (0x2e ∷ [])
    then checked_count (wc == 0xa || wc == 0xc) wc
    else if one_of c (write_andx ∷ [])
    then checked_count (wc == 0xc || wc == 0xe) wc
    else not_supported

pub smb1_req_struct_size : Buffer → Count
smb1_req_struct_size b = words_of (Hdr.smb_command b) (Hdr.word_count b)

-- The `switch` on the command: how many bytes it has at least, or none.
pub bytes_of : ℕ → Bool → ℕ → Count
unfolding one_of checked_count
bytes_of c unicode bc =
    if one_of c (0x04 ∷ 0x05 ∷ 0x2e ∷ 0x71 ∷ 0x74 ∷ 0xa4 ∷ 0x11 ∷ 0x34 ∷ [])
    then checked_count (bc == 0) bc
    else if one_of c (0x24 ∷ 0x25 ∷ 0x32 ∷ 0x2b ∷ 0x73 ∷ [])
    then count bc
    else if one_of c (write_andx ∷ [])
    then checked_count (leb 1 bc) bc
    else if one_of c (0x00 ∷ 0x01 ∷ 0x06 ∷ 0x07 ∷ 0x08 ∷ 0x09 ∷ 0x2d ∷ 0x72 ∷ 0x10 ∷ [])
    then checked_count (leb 2 bc) bc
    else if one_of c (0x75 ∷ 0x0b ∷ [])
    then checked_count (leb 3 bc) bc
    else if one_of c (0xa5 ∷ [])
    then checked_count (leb 4 bc) bc
    else if one_of c (0xa2 ∷ [])
    then if unicode then checked_count (leb 3 bc) bc else checked_count (leb 2 bc) bc
    else count bc

unfoldable pub byte_count : Buffer → ℕ
byte_count b = le16 b (37 + Hdr.word_count b * 2)

pub smb1_get_byte_count : Buffer → Count
unfolding byte_count
smb1_get_byte_count b = bytes_of (Hdr.smb_command b) (test_bit (Hdr.flags2 b) 15) (byte_count b)

-- 22 is EINVAL, and its negative an unsigned length.
pub calc_size : ℕ → Count → ℕ
calc_size len (count bc) = len + bc
calc_size len invalid = u32_mod - 22
calc_size len not_supported = u32_mod - 22

pub smb1_calc_size : Buffer → ℕ
unfolding calc_size
smb1_calc_size b = calc_size (35 + Hdr.word_count b * 2) (smb1_get_byte_count b)

pub smb1_get_data_len : Buffer → ℕ
smb1_get_data_len b =
    if Hdr.smb_command b == write_andx
    then add32 (Hdr.data_length_low b + 65536 * Hdr.data_length_high b) (Hdr.write_data_offset b)
    else if Hdr.smb_command b == 0x25
    then Hdr.trans_data_offset b + Hdr.trans_data_count b
    else if Hdr.smb_command b == 0x32
    then Hdr.trans_data_offset b + Hdr.trans_data_count b
    else 0

-- The tests on what smb1_req_struct_size returns.
pub bad_words : ℕ → Count → Bool
bad_words wc (count n) = not (wc == n)
bad_words wc invalid = true
bad_words wc not_supported = true

-- 0 lets the message pass.
pub cifsd_smb1_check_message : Buffer → ℕ
unfolding bad_words
cifsd_smb1_check_message b =
    if check_smb1_hdr b
    then 1
    else if bad_words (Hdr.word_count b) (smb1_req_struct_size b)
    then 1
    else if ltb (get_rfc1002_length b) (smb1_get_data_len b)
    then 1
    else if get_rfc1002_length b == smb1_calc_size b
    then 0
    else if Hdr.smb_command b == write_andx
    then 0
    else 1
