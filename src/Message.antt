-- ===== src/Message.antt =====
-- smb2misc.c: the check of a received SMB2 message. A result of `int` that may be negative is held
-- as its 32-bit pattern.
pub mod DataArea
pub mod Accept
mod Tests
use cifsd.Base.{
  ℕ, zero, suc, ◌+◌, ◌-◌, ◌*◌, ◌/◌, ◌%◌, Bool, true, false, not, ◌&&◌, ◌||◌, Option, none, some,
  List, [], ◌∷◌, ltb, leb, ◌==◌, if◌then◌else◌, test_bit, is_negative, u32_mod, sub32, get_or,
}
use cifsd.Wire.{Buffer, advance, le16, get_rfc1002_length}
use cifsd.Wire.Hdr
use cifsd.Wire.Request

-- enum of the commands, in the order of their codes
abbrev pub number_of_smb2_commands : ℕ
number_of_smb2_commands = 0x13

abbrev pub error_structure_size2 : ℕ
error_structure_size2 = 9

pub check_smb2_hdr : Buffer → Bool
check_smb2_hdr b = test_bit (Hdr.flags b) 0

abbrev pub smb2_req_struct_sizes : List ℕ
smb2_req_struct_sizes =
    36 ∷ 25 ∷ 4 ∷ 9 ∷ 4 ∷ 57 ∷ 24 ∷ 24 ∷ 49 ∷ 49 ∷ 48 ∷ 57 ∷ 4 ∷ 4 ∷ 33 ∷ 32 ∷ 41 ∷ 33 ∷ 36 ∷ []

abbrev pub has_smb2_data_area : List Bool
has_smb2_data_area =
    true ∷ true ∷ false ∷ true ∷ false ∷ true ∷ false ∷ false ∷ true ∷ true ∷ true ∷ true ∷ false
    ∷ false ∷ true ∷ false ∷ true ∷ true ∷ false ∷ []

-- How far one context moves the walk: its structure and two bytes of padding. A context of
-- another type moves it nowhere.
context_step : ℕ → ℕ
context_step t = if t == 1 then 48 else if t == 2 then 16 else 0

-- The `while` loop over `n` contexts from the byte `p`.
pub neg_contexts_len : Buffer → ℕ → ℕ → ℕ → ℕ
neg_contexts_len b zero p len = len
neg_contexts_len b (suc n) p len =
    neg_contexts_len b n (p + context_step (le16 b p)) (len + context_step (le16 b p))

-- `none` is the result 0: the caller then sets the offset and the length itself.
pub get_neg_context_size : Buffer → Option (ℕ × ℕ)
get_neg_context_size b =
    if off == 0 || count == 0 then none else if leb len 2 then none else some (off, len - 2)
  where
    off : ℕ
    off = Request.negotiate_context_offset b

    count : ℕ
    count = Request.negotiate_context_count b

    len : ℕ
    len = neg_contexts_len b count (off + 4) 0

create_area : Buffer → ℕ × ℕ
create_area b =
    if not (Request.create_contexts_length b == 0)
    then (Request.create_contexts_offset b, Request.create_contexts_length b)
    else (Request.name_offset b, Request.name_length b)

write_area : Buffer → ℕ × ℕ
write_area b =
    if not (Request.data_offset b == 0)
    then (Request.data_offset b, Request.write_length b)
    else (Request.write_channel_info_offset b, Request.write_channel_info_length b)

-- One lock element is counted in the fixed size.
lock_area : Buffer → ℕ × ℕ
lock_area b =
    if ltb 1 (Request.lock_count b) then (64 + 48, 24 * (Request.lock_count b - 1)) else (0, 0)

negotiate_area : Buffer → ℕ × ℕ
negotiate_area b = elim (get_neg_context_size b) [
  | none ↦ (64 + 36, Request.dialect_count b * 2)
  | some area ↦ area
]

-- The `switch` on the command.
pub command_area : Buffer → ℕ → ℕ × ℕ
unfolding create_area write_area lock_area negotiate_area
command_area b c =
    if c == 0x00
    then negotiate_area b
    else if c == 0x01
    then (Request.security_buffer_offset b, Request.security_buffer_length b)
    else if c == 0x03
    then (Request.path_offset b, Request.path_length b)
    else if c == 0x05
    then create_area b
    else if c == 0x10
    then (Request.input_buffer_offset b, Request.input_buffer_length b)
    else if c == 0x11
    then (Request.buffer_offset b, Request.buffer_length b)
    else if c == 0x08
    then (Request.read_channel_info_offset b, Request.read_channel_info_length b)
    else if c == 0x09
    then write_area b
    else if c == 0x0e
    then (Request.file_name_offset b, Request.file_name_length b)
    else if c == 0x0a
    then lock_area b
    else if c == 0x0b
    then (Request.input_offset b, Request.input_count b)
    else (0, 0)

-- An offset or a length that makes no sense: the area is ignored.
limit_area : ℕ × ℕ → ℕ × ℕ
limit_area (off, len) =
    if not (is_negative off) && ltb 4096 off
    then (0, 0)
    else if is_negative off
    then (0, 0)
    else if is_negative len
    then (off, 0)
    else if ltb (128 * 1024) len
    then (off, 0)
    else (off, len)

-- A request that carries an error has no area.
pub is_error_request : Buffer → Bool
is_error_request b =
    not (Hdr.status b == 0)
    && not (Hdr.status b == 0xc0000016)
    && Hdr.structure_size2 b == error_structure_size2

-- The offset and the length that the two pointer arguments get.
pub smb2_get_data_area_len : Buffer → ℕ × ℕ
unfolding is_error_request command_area limit_area
smb2_get_data_area_len b =
    if is_error_request b then (0, 0) else limit_area (command_area b (Hdr.command b))

pub fixed_size : Buffer → ℕ
fixed_size b = Hdr.structure_size b + Hdr.structure_size2 b

sized_with_area : ℕ → ℕ × ℕ → ℕ
sized_with_area len (off, data_length) =
    if ltb 0 data_length then if ltb (off + 1) len then len else off + data_length else len

pub smb2_calc_size : Buffer → ℕ
unfolding fixed_size sized_with_area
smb2_calc_size b =
    if not (get_or has_smb2_data_area (Hdr.command b) false)
    then fixed_size b
    else sized_with_area (fixed_size b) (smb2_get_data_area_len b)

round_up8 : ℕ → ℕ
round_up8 x = (x + 7) / 8 * 8

-- The length that the message should have: of the packet, or of its part of a compound.
pub message_len : Buffer → ℕ → ℕ
unfolding round_up8
message_len buf next =
    if ltb 0 (Hdr.next_command (advance buf next))
    then Hdr.next_command (advance buf next)
    else if not (next == 0)
    then round_up8 (sub32 (get_rfc1002_length buf) next) % u32_mod
    else get_rfc1002_length buf

-- The `StructureSize2` of another request than the command's table entry.
pub bad_structure_size2 : Buffer → ℕ → Bool
bad_structure_size2 b c =
    if get_or smb2_req_struct_sizes c 0 == size2
    then false
    else if not (c == 0x12) && (Hdr.status b == 0 || not (size2 == error_structure_size2))
    then true
    else c == 0x12 && Hdr.status b == 0 && not (size2 == 44) && not (size2 == 36)
  where
    size2 : ℕ
    size2 = Hdr.structure_size2 b

-- The lengths that pass: `len` on the wire against `clc_len` from the fields.
pub length_accepted : ℕ → ℕ → Bool
unfolding round_up8
length_accepted len clc_len =
    if len == clc_len
    then true
    else if clc_len == (len + 1) % u32_mod
    then true
    else if round_up8 clc_len == len
    then true
    else ltb clc_len len

-- 0 lets the message pass. `next` is `next_smb2_rcv_hdr_off`.
pub cifsd_smb2_check_message : Buffer → ℕ → ℕ
unfolding check_smb2_hdr
cifsd_smb2_check_message buf next =
    if check_smb2_hdr b
    then 1
    else if not (Hdr.structure_size b == 64)
    then 1
    else if leb number_of_smb2_commands (Hdr.command b)
    then 1
    else if bad_structure_size2 b (Hdr.command b)
    then 1
    else if length_accepted (message_len buf next) (smb2_calc_size b)
    then 0
    else 1
  where
    b : Buffer
    b = advance buf next
