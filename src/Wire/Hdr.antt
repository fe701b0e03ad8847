-- ===== src/Wire/Hdr.antt =====
-- The fixed header of a request: smb2pdu.h.
use cifsd.Base.{ℕ}
use cifsd.Wire.{Buffer, le16, le32, le64}

-- struct smb2_hdr
unfoldable pub protocol_id : Buffer → ℕ
protocol_id b = le32 b 4

unfoldable pub structure_size : Buffer → ℕ
structure_size b = le16 b 8

unfoldable pub status : Buffer → ℕ
status b = le32 b 12

unfoldable pub command : Buffer → ℕ
command b = le16 b 16

unfoldable pub flags : Buffer → ℕ
flags b = le32 b 20

unfoldable pub next_command : Buffer → ℕ
next_command b = le32 b 24

unfoldable pub credit_request : Buffer → ℕ
credit_request b = le16 b 18

unfoldable pub message_id : Buffer → ℕ
message_id b = le64 b 28

unfoldable pub process_id : Buffer → ℕ
process_id b = le32 b 36

unfoldable pub tree_id : Buffer → ℕ
tree_id b = le32 b 40

unfoldable pub session_id : Buffer → ℕ
session_id b = le64 b 44

-- struct smb2_pdu
unfoldable pub structure_size2 : Buffer → ℕ
structure_size2 b = le16 b 68
