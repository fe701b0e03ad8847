-- ===== src/Message/DataArea.antt =====
-- The variable area of a request, and the size that follows from it: smb2_get_data_area_len and
-- smb2_calc_size of smb2misc.c.
use cifsd.Base.{ℕ, zero, suc, ◌+◌, ◌*◌, ◌≤◌, ◌<◌, ◌≡◌, inl, inr, arith, Bool-cases, some}
use cifsd.Wire.{Buffer, byte, le16, le32}
use cifsd.Wire.Hdr
use cifsd.Wire.Request
use cifsd.Message.{
  smb2_get_data_area_len, limit_area, command_area, is_error_request, smb2_calc_size, fixed_size,
  sized_with_area, neg_contexts_len, context_step, get_neg_context_size,
}

limit_area_bounds : (area : ℕ × ℕ) → ((limit_area area).0 ≤ 4096) × ((limit_area area).1 ≤ 131072)
unfolding limit_area
limit_area_bounds (off, len) = ground arith

-- Whatever a request says, the data area that the server takes from it starts at most 4096 bytes
-- into the message and is at most 128 KiB long.
pub data_area_bounds :
    (b : Buffer) → ((smb2_get_data_area_len b).0 ≤ 4096) × ((smb2_get_data_area_len b).1 ≤ 131072)
unfolding smb2_get_data_area_len
data_area_bounds b = elim (Bool-cases (is_error_request b)) [
  | inl e ↦ rw e (omega arith, omega arith)
  | inr e ↦ rw e (limit_area_bounds (command_area b (Hdr.command b)))
]

byte-lt : (b : Buffer) (o : ℕ) → byte b o < 256
unfolding byte
byte-lt b o = omega arith

pub le16-lt : (b : Buffer) (o : ℕ) → le16 b o < 65536
unfolding le16
le16-lt b o = omega (arith, byte-lt b o, byte-lt b (o + 1))

pub le32-lt : (b : Buffer) (o : ℕ) → le32 b o < 4294967296
unfolding le32
le32-lt b o = omega (arith, le16-lt b o, le16-lt b (o + 2))

sized_with_area_bounds :
    (len : ℕ) (area : ℕ × ℕ)
    → len ≤ 131070
    → area.0 ≤ 4096
    → area.1 ≤ 131072
    → (sized_with_area len area ≤ 135168) × (len ≤ sized_with_area len area + 1)
unfolding sized_with_area
sized_with_area_bounds len (off, data_length) h p q = ground arith

-- The calculated size of a message with the fixed header size of 64 fits an `int`, and is at least
-- that of its fixed part.
pub calc_size_bounds :
    (b : Buffer)
    → Hdr.structure_size b ≡ 64
    → (smb2_calc_size b ≤ 135168) × (64 + Hdr.structure_size2 b ≤ smb2_calc_size b)
unfolding smb2_calc_size fixed_size sized_with_area Hdr.structure_size2
calc_size_bounds b h = ground (arith, data_area_bounds b, le16-lt b 68)

neg_contexts_len_le : (b : Buffer) (n p len : ℕ) → neg_contexts_len b n p len ≤ len + 48 * n
unfolding neg_contexts_len context_step
neg_contexts_len_le b zero p len = omega arith
neg_contexts_len_le b (suc n) p len =
    ground
      (arith, neg_contexts_len_le b n (p + context_step (le16 b p)) (len + context_step (le16 b p)))

-- The walk over the negotiate contexts never overflows the length that it counts, and when it
-- reports an area, that is not empty and starts where the request says.
pub neg_context_size_bounds :
    (b : Buffer) {off len : ℕ}
    → get_neg_context_size b ≡ some (off, len)
    → (off ≡ Request.negotiate_context_offset b)
      × (0 < len)
      × (len + 2 ≤ 48 * Request.negotiate_context_count b)
unfolding get_neg_context_size
neg_context_size_bounds b e = ground (
  arith,
  neg_contexts_len_le b (Request.negotiate_context_count b) (Request.negotiate_context_offset b + 4)
      0,
)
