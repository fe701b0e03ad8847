-- ===== src/CreateContexts.antt =====
-- The create contexts of an open: parse_lease_state, smb2_find_context_vals and create_lease_buf of
-- oplock.c, over the bytes of the packet.
pub mod Chain
pub mod RoundTrip
mod Tests
use cifsd.Base.{
  ℕ, zero, suc, ◌+◌, ◌*◌, ◌%◌, ◌/◌, Bool, true, false, ◌&&◌, Option, none, some, List, [], ◌∷◌, ltb,
  ◌==◌, if◌then◌else◌,
}
use cifsd.Oplock.{Lease, LeaseCtx}
use cifsd.Wire.{Buffer, byte, le16, le32, le64}
use cifsd.Wire.Request.{create_contexts_offset}
use cifsd.Wire.Write.{put16, put32, put64, put_bytes}

-- struct create_context, at the offset `at`
unfoldable pub next_context : Buffer → ℕ → ℕ
next_context b at = le32 b at

unfoldable pub context_name : Buffer → ℕ → ℕ
context_name b at = at + le16 b (at + 4)

unfoldable pub context_name_length : Buffer → ℕ → ℕ
context_name_length b at = le16 b (at + 6)

-- strncmp for the length of `s`, which has no NUL.
unfoldable pub has_bytes : Buffer → ℕ → List ℕ → Bool
has_bytes b o [] = true
has_bytes b o (c ∷ s) = (byte b o == c) && has_bytes b (o + 1) s

-- strcmp: the NUL at the end of `s` counts.
unfoldable pub is_string : Buffer → ℕ → List ℕ → Bool
is_string b o [] = byte b o == 0
is_string b o (c ∷ s) = (byte b o == c) && is_string b (o + 1) s

-- SMB2_CREATE_REQUEST_LEASE, "RqLs"
abbrev pub request_lease : List ℕ
request_lease = 82 ∷ 113 ∷ 76 ∷ 115 ∷ []

-- A context at an offset, ENOENT, EINVAL, or a loop that has not ended.
pub data Search : Type 0 where
  found : ℕ → Search
  absent bad_name unfinished : Search

-- The loop of smb2_find_context_vals, with a bound on the contexts.
unfoldable pub find_context : ℕ → Buffer → List ℕ → ℕ → Search
unfolding context_name context_name_length is_string next_context
find_context zero b s at = unfinished
find_context (suc fuel) b s at =
    let rest = find_context fuel b s (at + next_context b at) in
    if ltb (context_name_length b at) 4
    then bad_name
    else if is_string b (context_name b at) s
    then found at
    else if next_context b at == 0
    then absent
    else rest

unfoldable pub smb2_find_context_vals : ℕ → Buffer → List ℕ → Search
unfolding find_context
smb2_find_context_vals fuel req s = find_context fuel req s (create_contexts_offset req + 4)

unfoldable pub names_lease : Buffer → ℕ → Bool
unfolding context_name context_name_length has_bytes
names_lease b at = (context_name_length b at == 4) && has_bytes b (context_name b at) request_lease

-- The loop of parse_lease_state.
unfoldable pub find_lease : ℕ → Buffer → ℕ → Search
unfolding names_lease next_context
find_lease zero b at = unfinished
find_lease (suc fuel) b at =
    let rest = find_lease fuel b (at + next_context b at) in
    if names_lease b at then found at else if next_context b at == 0 then absent else rest

-- struct create_lease, at the offset `at`
unfoldable pub read_lease : Buffer → ℕ → LeaseCtx
read_lease b at = record {
  lease_key = le64 b (at + 24) + 18446744073709551616 * le64 b (at + 32);
  req_state = le32 b (at + 40);
  flags = le32 b (at + 44);
  duration = le64 b (at + 48);
}

unfoldable pub lease_found : Buffer → Search → Option LeaseCtx
unfolding read_lease
lease_found b (found at) = some (read_lease b at)
lease_found b absent = none
lease_found b bad_name = none
lease_found b unfinished = none

unfoldable pub parse_lease_state : ℕ → Buffer → Option LeaseCtx
unfolding find_lease lease_found
parse_lease_state fuel req = lease_found req (find_lease fuel req (create_contexts_offset req + 4))

-- The two words of a key of 16 bytes.
abbrev pub key_low : Lease → ℕ
key_low l = l.lease_key % 18446744073709551616

abbrev pub key_high : Lease → ℕ
key_high l = l.lease_key / 18446744073709551616

-- memset of the 56 bytes of struct create_lease, and the fields of its lcontext.
unfoldable pub lease_data : Buffer → ℕ → Lease → Buffer
lease_data b at l =
    let b = put_bytes b at 56 (λ i. 0) in
    let b = put64 b (at + 24) (key_low l) in
    let b = put64 b (at + 32) (key_high l) in
    let b = put32 b (at + 44) l.flags in put32 b (at + 40) l.state

-- The fields of its ccontext.
unfoldable pub lease_fields : Buffer → ℕ → Buffer
lease_fields b at =
    let b = put16 b (at + 10) 24 in
    let b = put32 b (at + 12) 32 in let b = put16 b (at + 4) 16 in put16 b (at + 6) 4

-- Its name, byte by byte.
unfoldable pub lease_name : Buffer → ℕ → Buffer
lease_name b at =
    let b = put_bytes b (at + 16) 1 (λ i. 82) in
    let b = put_bytes b (at + 17) 1 (λ i. 113) in
    let b = put_bytes b (at + 18) 1 (λ i. 76) in put_bytes b (at + 19) 1 (λ i. 115)

unfoldable pub lease_header : Buffer → ℕ → Buffer
unfolding lease_fields lease_name
lease_header b at = lease_name (lease_fields b at) at

unfoldable pub create_lease_buf : Buffer → ℕ → Lease → Buffer
unfolding lease_data lease_header
create_lease_buf b at l = lease_header (lease_data b at l) at
