-- ===== src/Smb1Message/Accept.antt =====
-- What the check of an SMB1 message accepts.
use cifsd.Base.{
  u32_mod, ◌%◌, if◌then◌else◌, [], ◌∷◌, ℕ, ◌+◌, ◌*◌, ◌≡◌, ◌≤◌, ◌<◌, ◌⊎◌, ◌↔◌, inl, inr, Bool, true,
  false, refl, arith, test_bit, Bool-cases, ◌==◌,
}
use cifsd.Wire.{Buffer, le16, byte, get_rfc1002_length}
use cifsd.Smb1Message.{
  one_of, Count, checked_count, count, invalid, not_supported, write_andx, check_smb1_hdr,
  smb1_req_struct_size, bytes_of, byte_count, smb1_get_byte_count, calc_size, smb1_calc_size,
  smb1_get_data_len, bad_words, cifsd_smb1_check_message,
}
use cifsd.Smb1Message.Tables.{has_words, has_count, words_iff, bytes_iff}
use cifsd.Smb1Message.Hdr

-- The announced data of a WRITE_ANDX.
abbrev pub write_area_length : Buffer → ℕ
write_area_length b = Hdr.data_length_low b + 65536 * Hdr.data_length_high b

-- Where the data ends, without a wrap.
abbrev pub data_end : Buffer → ℕ
data_end b =
    if Hdr.smb_command b == write_andx
    then Hdr.write_data_offset b + write_area_length b
    else if one_of (Hdr.smb_command b) (0x25 ∷ 0x32 ∷ [])
    then Hdr.trans_data_offset b + Hdr.trans_data_count b
    else 0

-- A request of a known command that has the words of its command.
pub record IsRequest (b : Buffer) : Type 0 where
  pub signature : Hdr.smb_protocol b ≡ 0x424d53ff
  pub no_response : test_bit (Hdr.smb_flags b) 7 ≡ false
  pub words : has_words (Hdr.smb_command b) (Hdr.word_count b) ≡ true

-- The length is that of the header, the words and the bytes, and the command allows the bytes.
pub record IsWhole (b : Buffer) : Type 0 where
  pub bytes : has_count (Hdr.smb_command b) (test_bit (Hdr.flags2 b) 15) (byte_count b) ≡ true
  pub adds_up : get_rfc1002_length b ≡ 35 + Hdr.word_count b * 2 + byte_count b

pub length-lt : (b : Buffer) → get_rfc1002_length b < 16777216
unfolding get_rfc1002_length byte
length-lt b = ground arith

-- A count of bytes is allowed or not.
Judged : ℕ → Count → Type 0
Judged n r = (r ≡ count n) ⊎ (r ≡ invalid)

checked_count-Judged : (c : Bool) (n : ℕ) → Judged n (checked_count c n)
unfolding checked_count Judged
checked_count-Judged true n = inl refl
checked_count-Judged false n = inr refl

bytes_of-Judged : (c : ℕ) (u : Bool) (bc : ℕ) → Judged bc (bytes_of c u bc)
unfolding bytes_of Judged checked_count
bytes_of-Judged c u bc = ground arith

good_words : (wc : ℕ) (r : Count) → bad_words wc r ≡ false → r ≡ count wc
unfolding bad_words
good_words wc (count n) h = ground arith
good_words wc invalid h = ground arith
good_words wc not_supported h = ground arith

words_good : (wc : ℕ) (r : Count) → r ≡ count wc → bad_words wc r ≡ false
unfolding bad_words
words_good wc (count n) h = ground arith
words_good wc invalid h = ground arith
words_good wc not_supported h = ground arith

size_iff :
    (len words bc : ℕ) (r : Count)
    → Judged bc r
    → len < 16777216
    → (len ≡ calc_size (35 + words * 2) r) ↔ ((r ≡ count bc) × (len ≡ 35 + words * 2 + bc))
unfolding calc_size Judged
size_iff len words bc (count n) j h = (λ e. ground arith, λ e. ground arith)
size_iff len words bc invalid j h = (λ e. ground arith, λ e. ground arith)
size_iff len words bc not_supported j h = (λ e. ground arith, λ e. ground arith)

calc_size_iff :
    (b : Buffer)
    → (get_rfc1002_length b ≡ smb1_calc_size b) ↔ (
        (smb1_get_byte_count b ≡ count (byte_count b))
        × (get_rfc1002_length b ≡ 35 + Hdr.word_count b * 2 + byte_count b))
unfolding smb1_calc_size smb1_get_byte_count
calc_size_iff b =
    size_iff (get_rfc1002_length b) (Hdr.word_count b) (byte_count b) _
      (bytes_of-Judged (Hdr.smb_command b) (test_bit (Hdr.flags2 b) 15) (byte_count b))
      (length-lt b)

-- What a message that passes meets.
pub record IsAccepted (b : Buffer) : Type 0 where
  pub request : IsRequest b
  pub data_fits : data_end b % u32_mod ≤ get_rfc1002_length b
  pub whole_or_write : IsWhole b ⊎ (Hdr.smb_command b ≡ write_andx)

IsWhole-iff : (b : Buffer) → (get_rfc1002_length b ≡ smb1_calc_size b) ↔ IsWhole b
unfolding smb1_get_byte_count
IsWhole-iff b =
    let s = calc_size_iff b in
    let t = bytes_iff (Hdr.smb_command b) (test_bit (Hdr.flags2 b) 15) (byte_count b) in
    (
      λ e. let r = s.0 e in record { bytes = t.0 r.0; adds_up = r.1 },
      λ w. s.1 (t.1 w.bytes, w.adds_up),
    )

data_len-end : (b : Buffer) → smb1_get_data_len b ≡ data_end b % u32_mod
unfolding smb1_get_data_len one_of Hdr.trans_data_offset Hdr.trans_data_count le16 byte
data_len-end b = ground arith

req_words :
    (b : Buffer)
    → (smb1_req_struct_size b ≡ count (Hdr.word_count b))
      ↔ (has_words (Hdr.smb_command b) (Hdr.word_count b) ≡ true)
unfolding smb1_req_struct_size
req_words b = words_iff (Hdr.smb_command b) (Hdr.word_count b)

pub IsAccepted-sound : (b : Buffer) → cifsd_smb1_check_message b ≡ 0 → IsAccepted b
unfolding cifsd_smb1_check_message check_smb1_hdr
IsAccepted-sound b e = record {
  request = record {
    signature = ground arith;
    no_response = ground arith;
    words = (req_words b).0 (good_words (Hdr.word_count b) (smb1_req_struct_size b) (ground arith));
  };
  data_fits = ground (arith, data_len-end b);
  whole_or_write = elim (Bool-cases (Hdr.smb_command b == write_andx)) [
    | inl w ↦ inr (ground arith)
    | inr o ↦ inl ((IsWhole-iff b).0 (ground arith))
  ];
}

pub accepted_complete : (b : Buffer) → IsAccepted b → cifsd_smb1_check_message b ≡ 0
unfolding cifsd_smb1_check_message check_smb1_hdr
accepted_complete b a =
    let w =
      words_good (Hdr.word_count b) (smb1_req_struct_size b) ((req_words b).1 a.request.words) in
    let size = (IsWhole-iff b).1 in
    let fits = a.data_fits in ground (arith, w, size, fits, data_len-end b)

-- An SMB1 message passes the check exactly when it has the signature and is no response, its command
-- is in the table of words with the number that it has, its data ends within the length, where the end of a
-- WRITE_ANDX is taken in 32 bits and can wrap, and either the length is that of the header, the words and
-- the bytes, with a count of bytes that the table allows, or the command is WRITE_ANDX.
pub smb1_check_message_iff : (b : Buffer) → (cifsd_smb1_check_message b ≡ 0) ↔ IsAccepted b
smb1_check_message_iff b = (IsAccepted-sound b, accepted_complete b)
