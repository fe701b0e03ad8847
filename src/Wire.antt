-- ===== src/Wire.antt =====
-- A received packet as bytes, and the fields of its headers: glob.h and the packed structures of
-- smb2pdu.h. An offset counts from the start of the structure, whose first four bytes are the
-- length of the RFC 1002 session header.
pub mod Hdr
pub mod Request
pub mod Write
use cifsd.Base.{ℕ, ◌+◌, ◌*◌, ◌%◌}

-- The memory from a pointer on.
abbrev pub Buffer : Type 0
Buffer = ℕ → ℕ

abbrev pub advance : Buffer → ℕ → Buffer
advance b n i = b (n + i)

unfoldable pub byte : Buffer → ℕ → ℕ
byte b o = b o % 256

unfoldable pub le16 : Buffer → ℕ → ℕ
unfolding byte
le16 b o = byte b o + 256 * byte b (o + 1)

unfoldable pub le32 : Buffer → ℕ → ℕ
unfolding le16
le32 b o = le16 b o + 65536 * le16 b (o + 2)

unfoldable pub le64 : Buffer → ℕ → ℕ
unfolding le32
le64 b o = le32 b o + 4294967296 * le32 b (o + 4)

-- The low 24 bits of a big endian word.
unfoldable pub get_rfc1002_length : Buffer → ℕ
unfolding byte
get_rfc1002_length b = 65536 * byte b 1 + 256 * byte b 2 + byte b 3
