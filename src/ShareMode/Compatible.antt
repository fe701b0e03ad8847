-- ===== src/ShareMode/Compatible.antt =====
-- When cifsd_smb_check_shared_mode of smb_common.c grants an open.
use cifsd.Base.{
  ℕ, ◌≡◌, ◌≢◌, ◌↔◌, refl, ◌⊎◌, inl, inr, Bool, true, false, Option, none, some, List, [], ◌∷◌,
  arith, All, Bool-cases,
}
use text.Mathlib.TextEquality.{eq_iff}
use Prim.Native.String.{String}
use cifsd.ShareMode.{
  File, Verdict, deny, cifsd_stream_fd, wants_delete, wants_read, wants_write, shares_read,
  shares_write, shares_delete, other_stream, same_flag, compare_modes, verdict,
  cifsd_smb_check_shared_mode,
}

-- What `b` wants to do, `a` shares.
abbrev pub SharesRead : File → File → Type 0
SharesRead a b = wants_read b.daccess ≡ true → shares_read a.saccess ≡ true

abbrev pub SharesWrite : File → File → Type 0
SharesWrite a b = wants_write b.daccess ≡ true → shares_write a.saccess ≡ true

abbrev pub SharesDelete : File → File → Type 0
SharesDelete a b = wants_delete b.daccess ≡ true → shares_delete a.saccess ≡ true

abbrev pub IsStream : File → Type 0
IsStream f = cifsd_stream_fd f ≡ true

-- Each open shares what the other wants; of the open of a stream before that of its file only the
-- sharing of deletion counts.
abbrev pub Agree : File → File → Type 0
Agree prev curr =
    SharesDelete prev curr
    × ((IsStream prev × (cifsd_stream_fd curr ≡ false))
        ⊎ (SharesRead prev curr
            × SharesWrite prev curr
            × SharesRead curr prev
            × SharesWrite curr prev
            × SharesDelete curr prev))

abbrev pub SameStream : Option String → Option String → Type 0
SameStream (some a) (some b) = a ≡ b
SameStream _ _ = Unit {0}

-- The earlier opens that are compared: of the same inode through another file, of the same stream,
-- not durable, and for attributes only if the new open is so too.
pub record IsRival (filp inode : ℕ) (curr prev : File) : Type 0 where
  pub same_inode : inode ≡ prev.inode
  pub other_file : filp ≢ prev.filp
  pub same_stream : SameStream prev.stream curr.stream
  pub not_durable : prev.is_durable ≡ false
  pub same_attrib : prev.attrib_only ≡ curr.attrib_only

abbrev pub is_deny : Verdict → Bool
is_deny (deny e) = true
is_deny _ = false

pub other_stream_iff : (a b : Option String) → (other_stream a b ≡ false) ↔ SameStream a b
unfolding other_stream
other_stream_iff none none = (λ _. tt, λ _. refl)
other_stream_iff none (some b) = (λ _. tt, λ _. refl)
other_stream_iff (some a) none = (λ _. tt, λ _. refl)
other_stream_iff (some a) (some b) =
    (λ e. ground (arith, eq_iff a b), λ e. ground (arith, eq_iff a b))

same_flag_iff : (a b : Bool) → (same_flag a b ≡ true) ↔ (a ≡ b)
unfolding same_flag
same_flag_iff a b = (λ e. ground arith, λ e. ground arith)

-- The five comparisons that an open of a stream before that of its file skips.
abbrev AgreeFully : File → File → Type 0
AgreeFully prev curr =
    SharesRead prev curr
    × SharesWrite prev curr
    × SharesRead curr prev
    × SharesWrite curr prev
    × SharesDelete curr prev

compare_modes-delete :
    (prev curr : File) → is_deny (compare_modes prev curr) ≡ false → SharesDelete prev curr
unfolding compare_modes
compare_modes-delete prev curr e = λ h. ground arith

compare_modes-fully :
    (prev curr : File)
    → is_deny (compare_modes prev curr) ≡ false
    → (cifsd_stream_fd prev ≡ false) ⊎ (cifsd_stream_fd curr ≡ true)
    → AgreeFully prev curr
unfolding compare_modes
compare_modes-fully prev curr e (inl s) =
    (λ h. ground arith, λ h. ground arith, λ h. ground arith, λ h. ground arith, λ h. ground arith)
compare_modes-fully prev curr e (inr s) =
    (λ h. ground arith, λ h. ground arith, λ h. ground arith, λ h. ground arith, λ h. ground arith)

compare_modes-Agree :
    (prev curr : File) → is_deny (compare_modes prev curr) ≡ false → Agree prev curr
compare_modes-Agree prev curr e = (
  compare_modes-delete prev curr e,
  elim (Bool-cases (cifsd_stream_fd prev)) [
    | inl p ↦ elim (Bool-cases (cifsd_stream_fd curr)) [
      | inl c ↦ inr (compare_modes-fully prev curr e (inr c))
      | inr c ↦ inl (p, c)
    ]
    | inr p ↦ inr (compare_modes-fully prev curr e (inl p))
  ],
)

Agree-compare_modes :
    (prev curr : File) → Agree prev curr → is_deny (compare_modes prev curr) ≡ false
unfolding compare_modes
Agree-compare_modes prev curr e = ground arith

-- A verdict denies exactly when the earlier open is a rival that does not agree.
verdict-granted :
    (filp inode : ℕ) (curr prev : File)
    → is_deny (verdict filp inode curr prev) ≡ false
    → IsRival filp inode curr prev
    → Agree prev curr
unfolding verdict
verdict-granted filp inode curr prev e r = compare_modes-Agree prev curr (
    ground (
      arith,
      (other_stream_iff prev.stream curr.stream).1 r.same_stream,
      (same_flag_iff prev.attrib_only curr.attrib_only).1 r.same_attrib,
    ))

denied-IsRival :
    (filp inode : ℕ) (curr prev : File)
    → is_deny (verdict filp inode curr prev) ≡ true
    → IsRival filp inode curr prev × (is_deny (compare_modes prev curr) ≡ true)
unfolding verdict
denied-IsRival filp inode curr prev e = (
  record {
    same_inode = ground arith;
    other_file = ground arith;
    same_stream = (other_stream_iff prev.stream curr.stream).0 (ground arith);
    not_durable = ground arith;
    same_attrib = (same_flag_iff prev.attrib_only curr.attrib_only).0 (ground arith);
  },
  ground arith,
)

granted-verdict :
    (filp inode : ℕ) (curr prev : File)
    → (IsRival filp inode curr prev → Agree prev curr)
    → is_deny (verdict filp inode curr prev) ≡ false
granted-verdict filp inode curr prev agree =
    elim (Bool-cases (is_deny (verdict filp inode curr prev))) [
      | inl d ↦
          let (rival, denied) = denied-IsRival filp inode curr prev d in
          let fine = Agree-compare_modes prev curr (agree rival) in cc
      | inr g ↦ g
    ]

module _ (filp inode : ℕ) (curr : File) where
  scan-step :
      (prev : File) (rest : List File)
      → ((cifsd_smb_check_shared_mode filp inode curr (prev ∷ rest)).1 ≡ false) ↔ (
          (is_deny (verdict filp inode curr prev) ≡ false)
          × ((cifsd_smb_check_shared_mode filp inode curr rest).1 ≡ false))
  unfolding cifsd_smb_check_shared_mode
  scan-step prev rest = (λ e. ground arith, λ e. ground arith)

  granted_sound :
      (opens : List File)
      → (cifsd_smb_check_shared_mode filp inode curr opens).1 ≡ false
      → All (λ prev. IsRival filp inode curr prev → Agree prev curr) opens
  granted_sound [] e = tt
  granted_sound (prev ∷ rest) e =
      let (here, later) = (scan-step prev rest).0 e in
      (verdict-granted filp inode curr prev here, granted_sound rest later)

  granted_complete :
      (opens : List File)
      → All (λ prev. IsRival filp inode curr prev → Agree prev curr) opens
      → (cifsd_smb_check_shared_mode filp inode curr opens).1 ≡ false
  unfolding cifsd_smb_check_shared_mode
  granted_complete [] h = refl
  granted_complete (prev ∷ rest) h =
      (scan-step prev rest).1 (granted-verdict filp inode curr prev h.0, granted_complete rest h.1)

  -- A new open is granted exactly when it agrees with each of its rivals among the earlier opens.
  pub check_shared_mode_iff :
      (opens : List File)
      → ((cifsd_smb_check_shared_mode filp inode curr opens).1 ≡ false)
        ↔ All (λ prev. IsRival filp inode curr prev → Agree prev curr) opens
  check_shared_mode_iff opens = (granted_sound opens, granted_complete opens)
