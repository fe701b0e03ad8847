-- ===== src/Acl/Rights.antt =====
-- The rights of a mode in cifsacl.c, checked for all modes of 16 bits.
use Prim.Native.Nat.{bit_and, bit_or}
use cifsd.Base.{
  check_all, check_all_sound, ℕ, ◌+◌, ◌*◌, ◌≡◌, ◌<◌, refl, Bool, true, ◌&&◌, ◌==◌, if◌then◌else◌,
  arith,
}
use cifsd.Acl.{mode_to_access_flags, rights_of, allow_mode, access_flags_to_mode}

-- The access that fill_ace_for_sid asks for.
unfoldable pub access_of : ℕ → ℕ → ℕ
unfolding mode_to_access_flags
access_of mode bits =
    if mode_to_access_flags mode bits == 0 then 0x120088 else mode_to_access_flags mode bits

-- What the three entries of a chmod grant, one after the other.
unfoldable pub read_back : ℕ → ℕ → ℕ
unfolding access_of access_flags_to_mode
read_back base mode =
    (access_flags_to_mode (access_of mode 0x7) 0
      (access_flags_to_mode (access_of mode 0x38) 0
        (access_flags_to_mode (access_of mode 0x1c0) 0 base 0x1c0).0 0x38).0
      0x1ff).0

-- The permissions of all others are for the owner and the group, too.
abbrev pub spread : ℕ → ℕ
spread mode = bit_or mode (bit_and mode 7 * 73)

pub all_modes :
    check_all
      (λ h. check_all (λ mode. read_back (h * 512) mode == bit_or (h * 512) (spread mode)) 512)
      128
    ≡ true
unfolding read_back access_of mode_to_access_flags access_flags_to_mode allow_mode rights_of
all_modes = refl

pub cleared :
    check_all (λ h. check_all (λ mode. bit_and (h * 512 + mode) 0xfe00 == h * 512) 512) 128 ≡ true
cleared = refl

-- Only the nine permissions of a mode count.
masked :
    check_all
      (λ h.
        check_all
          (λ m.
            bit_and (h * 512 + m) 0x7 == bit_and m 0x7
            && (bit_and (h * 512 + m) 0x38 == bit_and m 0x38
                && bit_and (h * 512 + m) 0x1c0 == bit_and m 0x1c0))
          512)
      128
    ≡ true
masked = refl

masked_at :
    (h m : ℕ)
    → h < 128
    → m < 512
    → (bit_and (h * 512 + m) 0x7 ≡ bit_and m 0x7)
      × (bit_and (h * 512 + m) 0x38 ≡ bit_and m 0x38)
      × (bit_and (h * 512 + m) 0x1c0 ≡ bit_and m 0x1c0)
masked_at h m hl ml =
    let f : ℕ → ℕ → Bool = λ h m.
      bit_and (h * 512 + m) 0x7 == bit_and m 0x7
      && (bit_and (h * 512 + m) 0x38 == bit_and m 0x38
          && bit_and (h * 512 + m) 0x1c0 == bit_and m 0x1c0) in
    let c =
      check_all_sound (f h) 512 m (check_all_sound (λ h. check_all (f h) 512) 128 h masked hl) ml in
    (ground (arith, c), ground (arith, c), ground (arith, c))

access_masked :
    (a b bits : ℕ) → bit_and a bits ≡ bit_and b bits → access_of a bits ≡ access_of b bits
unfolding access_of mode_to_access_flags
access_masked a b bits e = rw e refl

pub read_back_masked :
    (base h m : ℕ) → h < 128 → m < 512 → read_back base (h * 512 + m) ≡ read_back base m
unfolding read_back
read_back_masked base h m hl ml =
    let k = masked_at h m hl ml in
    rw
      (
        access_masked (h * 512 + m) m 0x7 k.0,
        access_masked (h * 512 + m) m 0x38 k.1,
        access_masked (h * 512 + m) m 0x1c0 k.2,
      )
      refl
