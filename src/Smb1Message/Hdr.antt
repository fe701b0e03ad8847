-- ===== src/Smb1Message/Hdr.antt =====
-- struct smb_hdr, and the fields of smb1pdu.h that the check of a message reads.
use cifsd.Base.{ℕ}
use cifsd.Wire.{Buffer, byte, le16, le32}

unfoldable pub smb_protocol : Buffer → ℕ
smb_protocol b = le32 b 4

unfoldable pub smb_command : Buffer → ℕ
smb_command b = byte b 8

unfoldable pub smb_flags : Buffer → ℕ
smb_flags b = byte b 13

unfoldable pub flags2 : Buffer → ℕ
flags2 b = le16 b 14

unfoldable pub word_count : Buffer → ℕ
word_count b = byte b 36

-- WRITE_REQ
unfoldable pub data_length_high : Buffer → ℕ
data_length_high b = le16 b 55

unfoldable pub data_length_low : Buffer → ℕ
data_length_low b = le16 b 57

unfoldable pub write_data_offset : Buffer → ℕ
write_data_offset b = le16 b 59

-- TRANS_REQ and struct smb_trans2_req, which agree up to here.
unfoldable pub trans_data_count : Buffer → ℕ
trans_data_count b = le16 b 59

unfoldable pub trans_data_offset : Buffer → ℕ
trans_data_offset b = le16 b 61
