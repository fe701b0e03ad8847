-- ===== src/Wire/Request.antt =====
-- The offset and length fields of the requests: smb2pdu.h.
use cifsd.Base.{ℕ}
use cifsd.Wire.{Buffer, le16, le32}

-- struct smb2_negotiate_req
unfoldable pub dialect_count : Buffer → ℕ
dialect_count b = le16 b 70

unfoldable pub negotiate_context_offset : Buffer → ℕ
negotiate_context_offset b = le32 b 96

unfoldable pub negotiate_context_count : Buffer → ℕ
negotiate_context_count b = le16 b 100

-- struct smb2_sess_setup_req
unfoldable pub security_buffer_offset : Buffer → ℕ
security_buffer_offset b = le16 b 80

unfoldable pub security_buffer_length : Buffer → ℕ
security_buffer_length b = le16 b 82

-- struct smb2_tree_connect_req
unfoldable pub path_offset : Buffer → ℕ
path_offset b = le16 b 72

unfoldable pub path_length : Buffer → ℕ
path_length b = le16 b 74

-- struct smb2_create_req
unfoldable pub name_offset : Buffer → ℕ
name_offset b = le16 b 112

unfoldable pub name_length : Buffer → ℕ
name_length b = le16 b 114

unfoldable pub create_contexts_offset : Buffer → ℕ
create_contexts_offset b = le32 b 116

unfoldable pub create_contexts_length : Buffer → ℕ
create_contexts_length b = le32 b 120

-- struct smb2_read_req
unfoldable pub read_channel_info_offset : Buffer → ℕ
read_channel_info_offset b = le16 b 112

unfoldable pub read_channel_info_length : Buffer → ℕ
read_channel_info_length b = le16 b 114

-- struct smb2_write_req
unfoldable pub data_offset : Buffer → ℕ
data_offset b = le16 b 70

unfoldable pub write_length : Buffer → ℕ
write_length b = le32 b 72

unfoldable pub write_channel_info_offset : Buffer → ℕ
write_channel_info_offset b = le16 b 108

unfoldable pub write_channel_info_length : Buffer → ℕ
write_channel_info_length b = le16 b 110

-- struct smb2_lock_req
unfoldable pub lock_count : Buffer → ℕ
lock_count b = le16 b 70

-- struct smb2_ioctl_req
unfoldable pub input_offset : Buffer → ℕ
input_offset b = le32 b 92

unfoldable pub input_count : Buffer → ℕ
input_count b = le32 b 96

-- struct smb2_query_directory_req
unfoldable pub file_name_offset : Buffer → ℕ
file_name_offset b = le16 b 92

unfoldable pub file_name_length : Buffer → ℕ
file_name_length b = le16 b 94

-- struct smb2_query_info_req
unfoldable pub input_buffer_offset : Buffer → ℕ
input_buffer_offset b = le16 b 76

unfoldable pub input_buffer_length : Buffer → ℕ
input_buffer_length b = le32 b 80

-- struct smb2_set_info_req
unfoldable pub buffer_length : Buffer → ℕ
buffer_length b = le32 b 72

unfoldable pub buffer_offset : Buffer → ℕ
buffer_offset b = le16 b 76
