-- ===== src/Acl.antt =====
-- The permissions of a file as an access control list and back: cifsacl.c. The ACEs of a list stand at
-- offsets from its start; their bytes are not modelled.
pub mod Rights
pub mod Chmod
mod Tests
use Prim.Native.Nat.{bit_and, bit_or}
use cifsd.Base.{
  ℕ, zero, suc, leb, ◌+◌, ◌-◌, ◌*◌, Bool, true, false, not, ◌&&◌, ◌||◌, Option, none, some, List,
  [], ◌∷◌, ltb, ◌==◌, length, if◌then◌else◌,
}

-- struct cifs_sid, with num_subauth as the length of `sub_auth`
pub record Sid : Type 0 where
  pub revision : ℕ
  pub authority : List ℕ
  pub sub_auth : List ℕ

-- What compare_sids returns: -1, 0 or 1.
pub data Comparison : Type 0 where
  smaller equal larger : Comparison

-- The first of the common places where two lists differ.
pub compare_places : List ℕ → List ℕ → Comparison
compare_places [] bs = equal
compare_places (a ∷ xs) [] = equal
compare_places (a ∷ xs) (b ∷ bs) =
    if a == b then compare_places xs bs else if ltb b a then larger else smaller

pub then_places : Comparison → List ℕ → List ℕ → Comparison
unfolding compare_places
then_places smaller xs bs = smaller
then_places equal xs bs = compare_places xs bs
then_places larger xs bs = larger

pub compare_sids : Sid → Sid → Comparison
unfolding compare_places then_places
compare_sids a b =
    if a.revision == b.revision
    then then_places (compare_places a.authority b.authority) a.sub_auth b.sub_auth
    else if ltb b.revision a.revision
    then larger
    else smaller

pub is_equal : Comparison → Bool
is_equal smaller = false
is_equal equal = true
is_equal larger = false

unfoldable pub same_sid : Sid → Sid → Bool
unfolding compare_sids is_equal
same_sid a b = is_equal (compare_sids a b)

abbrev pub sid_everyone : Sid
sid_everyone = record { revision = 1; authority = 0 ∷ 0 ∷ 0 ∷ 0 ∷ 0 ∷ 1 ∷ []; sub_auth = 0 ∷ [] }

abbrev pub sid_authusers : Sid
sid_authusers = record { revision = 1; authority = 0 ∷ 0 ∷ 0 ∷ 0 ∷ 0 ∷ 5 ∷ []; sub_auth = 11 ∷ [] }

-- ACCESS_ALLOWED is 0, ACCESS_DENIED is 1.
pub record Ace : Type 0 where
  pub type : ℕ
  pub size : ℕ
  pub access_req : ℕ
  pub sid : Sid

-- struct cifs_acl with the memory behind its start: the ACEs that were written and the offset of each, the last
-- write first.
pub record Acl : Type 0 where
  pub size : ℕ
  pub num_aces : ℕ
  pub memory : List (ℕ × Ace)

-- The bytes that an ACE takes.
abbrev pub extent : Ace → ℕ
extent a = 16 + length a.sid.sub_auth * 4

-- The ACE at an offset, if one was written there and no later write has touched its bytes.
pub read_ace : ℕ → List (ℕ × Ace) → Option Ace
read_ace at [] = none
read_ace at ((o, a) ∷ writes) =
    let earlier = read_ace at writes in
    if o == at then some a else elim earlier [
      | none ↦ none
      | some b ↦ if leb (at + extent b) o || leb (o + extent a) at then some b else none
    ]

abbrev set_file_read_rights : ℕ
set_file_read_rights = 0x1f0199

abbrev set_file_write_rights : ℕ
set_file_write_rights = 0x1f01de

abbrev set_file_exec_rights : ℕ
set_file_exec_rights = 0x1f01b8

abbrev set_minimum_rights : ℕ
set_minimum_rights = 0x120088

abbrev any_bit : ℕ → ℕ → Bool
any_bit x mask = not (bit_and x mask == 0)

abbrev all_bits : ℕ → ℕ → Bool
all_bits x mask = bit_and x mask == mask

pub mode_to_access_flags : ℕ → ℕ → ℕ
mode_to_access_flags mode bits_to_use =
    let m = bit_and mode bits_to_use in
    bit_or
      (bit_or (if any_bit m 0x124 then set_file_read_rights else 0)
        (if any_bit m 0x92 then set_file_write_rights else 0))
      (if any_bit m 0x49 then set_file_exec_rights else 0)

pub fill_ace_for_sid : Sid → ℕ → ℕ → Ace
unfolding mode_to_access_flags
fill_ace_for_sid psid nmode bits = record {
  type = 0;
  size = 16 + length psid.sub_auth * 4;
  access_req = if access_req == 0 then set_minimum_rights else access_req;
  sid = psid;
}
  where
    access_req : ℕ
    access_req = mode_to_access_flags nmode bits

pub set_chmod_dacl : Sid → Sid → ℕ → Acl
unfolding fill_ace_for_sid
set_chmod_dacl pownersid pgrpsid nmode = record {
  size = user.size + group.size + others.size + 8;
  num_aces = 3;
  memory = (8 + (user.size + group.size), others) ∷ (8 + user.size, group) ∷ (8, user) ∷ [];
}
  where
    user : Ace
    user = fill_ace_for_sid pownersid nmode 0x1c0

    group : Ace
    group = fill_ace_for_sid pgrpsid nmode 0x38

    others : Ace
    others = fill_ace_for_sid sid_everyone nmode 0x7

-- What a set of flags grants of read, write and execute for all three classes.
pub rights_of : ℕ → ℕ
rights_of flags =
    bit_or
      (bit_or (if any_bit flags 0x40000000 || all_bits flags 0x116 then 0x92 else 0)
        (if any_bit flags 0x80000000 || all_bits flags 0x89 then 0x124 else 0))
      (if any_bit flags 0x20000000 || all_bits flags 0x20 then 0x49 else 0)

-- `umode_t` has 16 bits.
pub deny_bits : ℕ → ℕ → ℕ
unfolding rights_of
deny_bits flags bits_to_set =
    if any_bit flags 0x10000000
    then bit_and (bit_and bits_to_set 0xfe00) (0xffff - rights_of flags)
    else bit_and bits_to_set (0xffff - rights_of flags)

pub allow_mode : ℕ → ℕ → ℕ → ℕ
unfolding rights_of
allow_mode flags mode bits_to_set =
    if any_bit flags 0x10000000
    then bit_or mode (bit_and 0x1ff bits_to_set)
    else bit_or mode (bit_and (rights_of flags) bits_to_set)

-- The mode and the mask afterwards.
pub access_flags_to_mode : ℕ → ℕ → ℕ → ℕ → ℕ × ℕ
unfolding deny_bits allow_mode
access_flags_to_mode flags type mode bits_to_set =
    if type == 1
    then (mode, deny_bits flags bits_to_set)
    else if type == 0
    then (allow_mode flags mode bits_to_set, bits_to_set)
    else (mode, bits_to_set)

-- The mode and the three masks of parse_dacl.
pub record Parse : Type 0 where
  pub mode : ℕ
  pub user_mask : ℕ
  pub group_mask : ℕ
  pub other_mask : ℕ

pub for_user : Bool → Ace → Parse → Parse
unfolding access_flags_to_mode
for_user false a p = p
for_user true a p =
    let (m, b) = access_flags_to_mode a.access_req a.type p.mode p.user_mask in
    record p { mode = m; user_mask = b }

pub for_group : Bool → Ace → Parse → Parse
unfolding access_flags_to_mode
for_group false a p = p
for_group true a p =
    let (m, b) = access_flags_to_mode a.access_req a.type p.mode p.group_mask in
    record p { mode = m; group_mask = b }

pub for_other : Bool → Ace → Parse → Parse
unfolding access_flags_to_mode
for_other false a p = p
for_other true a p =
    let (m, b) = access_flags_to_mode a.access_req a.type p.mode p.other_mask in
    record p { mode = m; other_mask = b }

-- One turn of the loop.
pub parse_ace : Sid → Sid → Ace → Parse → Parse
unfolding for_user for_group for_other
parse_ace pownersid pgrpsid a p = for_other (same_sid a.sid sid_authusers) a (
    for_other (same_sid a.sid sid_everyone) a
      (for_group (same_sid a.sid pgrpsid) a (for_user (same_sid a.sid pownersid) a p)))

-- The loop, for `num_aces` entries from an offset on, each behind the one before by its size; `none` where it
-- meets bytes that are no ACE.
pub parse_aces : Sid → Sid → ℕ → ℕ → List (ℕ × Ace) → Parse → Option Parse
unfolding parse_ace read_ace
parse_aces pownersid pgrpsid zero at memory p = some p
parse_aces pownersid pgrpsid (suc n) at memory p = elim (read_ace at memory) [
  | none ↦ none
  | some a ↦ parse_aces pownersid pgrpsid n (at + a.size) memory (parse_ace pownersid pgrpsid a p)
]

pub mode_of : Option Parse → Option ℕ
mode_of none = none
mode_of (some p) = some p.mode

-- The mode, from the one there was; `room` is what the descriptor has behind the start of the list, and the
-- memory is there.
pub parse_dacl : Option Acl → ℕ → Sid → Sid → ℕ → Option ℕ
unfolding parse_aces mode_of
parse_dacl none room pownersid pgrpsid cf_mode = some (bit_or cf_mode 0x1ff)
parse_dacl (some dacl) room pownersid pgrpsid cf_mode =
    if ltb room dacl.size
    then some cf_mode
    else mode_of (
        parse_aces pownersid pgrpsid dacl.num_aces 8 dacl.memory (record {
          mode = bit_and cf_mode 0xfe00;
          user_mask = 0x1c0;
          group_mask = 0x38;
          other_mask = 0x1ff;
        }))
