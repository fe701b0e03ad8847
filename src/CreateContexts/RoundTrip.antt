-- ===== src/CreateContexts/RoundTrip.antt =====
-- The lease context that create_lease_buf of oplock.c writes, and parse_lease_state reads.
use cifsd.Base.{ℕ, suc, ◌+◌, ◌*◌, ◌%◌, ◌/◌, ◌≡◌, ◌≤◌, ◌<◌, ◌∙◌, ap, inl, inr, true, some, arith}
use cifsd.Oplock.{Lease, LeaseCtx}
use cifsd.Wire.{Buffer, byte, le16, le32, le64}
use cifsd.Wire.Request.{create_contexts_offset}
use cifsd.Wire.Write.{
  put16, put32, put64, put_bytes, le16-put16, le16-put16_other, le16-put_bytes_other, le64-put64,
  le64-put64_other, le64-put32_other, le64-same, le32-same, le32-put32, le32-put32_other,
}
use cifsd.CreateContexts.{
  context_name, context_name_length, has_bytes, request_lease, found, names_lease, find_lease,
  key_low, key_high, read_lease, lease_found, parse_lease_state, lease_data, lease_fields,
  lease_name, lease_header, create_lease_buf,
}

name_bytes : (b : Buffer) (at : ℕ) → has_bytes (lease_name b at) (at + 16) request_lease ≡ true
unfolding lease_name has_bytes put_bytes byte
name_bytes b at = ground arith

name_keeps : (b : Buffer) (at o : ℕ) → o + 2 ≤ at + 16 → le16 (lease_name b at) o ≡ le16 b o
unfolding lease_name
name_keeps b at o h =
    le16-put_bytes_other _ _ o (at + 19) 1 (inl (omega arith))
    ∙ le16-put_bytes_other _ _ o (at + 18) 1 (inl (omega arith))
    ∙ le16-put_bytes_other _ _ o (at + 17) 1 (inl (omega arith))
    ∙ le16-put_bytes_other _ _ o (at + 16) 1 (inl (omega arith))

name_at : (b : Buffer) (at : ℕ) → le16 (lease_header b at) (at + 4) ≡ 16
unfolding lease_header lease_fields
name_at b at =
    name_keeps _ at (at + 4) (omega arith)
    ∙ le16-put16_other _ (at + 4) (at + 6) 4 (inl (omega arith))
    ∙ le16-put16 _ (at + 4) 16 (omega arith)

length_of_name : (b : Buffer) (at : ℕ) → le16 (lease_header b at) (at + 6) ≡ 4
unfolding lease_header lease_fields
length_of_name b at = name_keeps _ at (at + 6) (omega arith) ∙ le16-put16 _ (at + 6) 4 (omega arith)

named_lease :
    (b : Buffer) (at : ℕ)
    → le16 b (at + 4) ≡ 16
    → le16 b (at + 6) ≡ 4
    → has_bytes b (at + 16) request_lease ≡ true
    → names_lease b at ≡ true
unfolding names_lease context_name context_name_length
named_lease b at h k n = ground (arith, h, k, n)

header_bytes : (b : Buffer) (at : ℕ) → has_bytes (lease_header b at) (at + 16) request_lease ≡ true
unfolding lease_header
header_bytes b at = name_bytes (lease_fields b at) at

names_lease-lease_header : (b : Buffer) (at : ℕ) → names_lease (lease_header b at) at ≡ true
names_lease-lease_header b at =
    named_lease (lease_header b at) at (name_at b at) (length_of_name b at) (header_bytes b at)

header_keeps : (b : Buffer) (at o i : ℕ) → at + 24 ≤ o → o ≤ i → lease_header b at i ≡ b i
unfolding lease_header lease_fields lease_name put32 put16 put_bytes
header_keeps b at o i h l = ground arith

-- What the reader of a lease context finds, with a duration of 0.
pub granted : Lease → LeaseCtx
granted l = record { lease_key = l.lease_key; req_state = l.state; flags = l.flags; duration = 0 }

-- The fields of struct lease fit the words of the packet.
pub record FitsPacket (l : Lease) : Type 0 where
  pub key_fits : key_high l < 18446744073709551616
  pub state_fits : l.state < 4294967296
  pub flags_fit : l.flags < 4294967296

zeros : (b : Buffer) (at : ℕ) → le64 (put_bytes b at 56 (λ i. 0)) (at + 48) ≡ 0
unfolding put_bytes le64 le32 le16 byte
zeros b at = ground arith

module _ (b : Buffer) (at : ℕ) (l : Lease) (h : FitsPacket l) where
  data_low : le64 (lease_data b at l) (at + 24) ≡ key_low l
  unfolding lease_data
  data_low =
      le64-put32_other _ (at + 24) (at + 40) l.state (inl (omega arith))
      ∙ le64-put32_other _ (at + 24) (at + 44) l.flags (inl (omega arith))
      ∙ le64-put64_other _ (at + 24) (at + 32) (key_high l) (inl (omega arith))
      ∙ le64-put64 _ (at + 24) (key_low l) (omega arith)

  data_high : le64 (lease_data b at l) (at + 32) ≡ key_high l
  unfolding lease_data
  data_high =
      le64-put32_other _ (at + 32) (at + 40) l.state (inl (omega arith))
      ∙ le64-put32_other _ (at + 32) (at + 44) l.flags (inl (omega arith))
      ∙ le64-put64 _ (at + 32) (key_high l) h.key_fits

  data_state : le32 (lease_data b at l) (at + 40) ≡ l.state
  unfolding lease_data
  data_state = le32-put32 _ (at + 40) l.state h.state_fits

  data_flags : le32 (lease_data b at l) (at + 44) ≡ l.flags
  unfolding lease_data
  data_flags =
      le32-put32_other _ (at + 44) (at + 40) l.state (inr (omega arith))
      ∙ le32-put32 _ (at + 44) l.flags h.flags_fit

  data_duration : le64 (lease_data b at l) (at + 48) ≡ 0
  unfolding lease_data
  data_duration =
      le64-put32_other _ (at + 48) (at + 40) l.state (inr (omega arith))
      ∙ le64-put32_other _ (at + 48) (at + 44) l.flags (inr (omega arith))
      ∙ le64-put64_other _ (at + 48) (at + 32) (key_high l) (inr (omega arith))
      ∙ le64-put64_other _ (at + 48) (at + 24) (key_low l) (inr (omega arith))
      ∙ zeros b at

  read-created : read_lease (create_lease_buf b at l) at ≡ granted l
  unfolding read_lease create_lease_buf granted
  read-created =
      let d = lease_data b at l in
      let k : (o : ℕ) → at + 24 ≤ o → (i : ℕ) → o ≤ i → lease_header d at i ≡ d i =
        λ o g i m. header_keeps d at o i g m in
      let key : key_low l + 18446744073709551616 * key_high l ≡ l.lease_key = omega arith in
      let low = le64-same d (lease_header d at) (at + 24) (k (at + 24) (omega arith)) ∙ data_low in
      let high =
        le64-same d (lease_header d at) (at + 32) (k (at + 32) (omega arith)) ∙ data_high in
      let state =
        le32-same d (lease_header d at) (at + 40) (k (at + 40) (omega arith)) ∙ data_state in
      let flags =
        le32-same d (lease_header d at) (at + 44) (k (at + 44) (omega arith)) ∙ data_flags in
      let none_left =
        le64-same d (lease_header d at) (at + 48) (k (at + 48) (omega arith)) ∙ data_duration in
      ground (arith, key, low, high, state, flags, none_left)

put32_below : (b : Buffer) (o v i : ℕ) → i < o → put32 b o v i ≡ b i
unfolding put32 put16
put32_below b o v i h = ground arith

put64_below : (b : Buffer) (o v i : ℕ) → i < o → put64 b o v i ≡ b i
unfolding put64
put64_below b o v i h =
    let low = put32 b o (v % 4294967296) in
    put32_below low (o + 4) (v / 4294967296) i (omega arith) ∙ put32_below b o (v % 4294967296) i h

cleared_below : (b : Buffer) (at i : ℕ) → i < at → put_bytes b at 56 (λ j. 0) i ≡ b i
unfolding put_bytes
cleared_below b at i h = ground arith

header_below : (b : Buffer) (at i : ℕ) → i < at → lease_header b at i ≡ b i
unfolding lease_header lease_fields lease_name put32 put16 put_bytes
header_below b at i h = ground arith

created_below : (b : Buffer) (at : ℕ) (l : Lease) (i : ℕ) → i < at → create_lease_buf b at l i ≡ b i
unfolding create_lease_buf lease_data
created_below b at l i h =
    let cleared = put_bytes b at 56 (λ j. 0) in
    let low = put64 cleared (at + 24) (key_low l) in
    let high = put64 low (at + 32) (key_high l) in
    let flagged = put32 high (at + 44) l.flags in
    header_below (put32 flagged (at + 40) l.state) at i h
    ∙ put32_below flagged (at + 40) l.state i (omega arith)
    ∙ put32_below high (at + 44) l.flags i (omega arith)
    ∙ put64_below low (at + 32) (key_high l) i (omega arith)
    ∙ put64_below cleared (at + 24) (key_low l) i (omega arith)
    ∙ cleared_below b at i h

le32-agree : (b c : Buffer) (o : ℕ) → ((i : ℕ) → i < o + 4 → b i ≡ c i) → le32 b o ≡ le32 c o
unfolding le32 le16 byte
le32-agree b c o h =
    let first = h o (omega arith) in
    let second = h (o + 1) (omega arith) in
    let third = h (o + 2) (omega arith) in
    let fourth = h (o + 2 + 1) (omega arith) in ground (arith, first, second, third, fourth)

-- The field of the request that says where its contexts start lies before them.
offset_kept :
    (b : Buffer) (at : ℕ) (l : Lease)
    → 120 ≤ at
    → create_contexts_offset (create_lease_buf b at l) ≡ create_contexts_offset b
unfolding create_contexts_offset
offset_kept b at l h =
    le32-agree (create_lease_buf b at l) b 116 (λ i m. created_below b at l i (omega arith))

lease_there :
    (fuel : ℕ) (b : Buffer) (at : ℕ)
    → names_lease b at ≡ true
    → find_lease (suc fuel) b at ≡ found at
unfolding find_lease
lease_there fuel b at h = ground (arith, h)

created_found :
    (fuel : ℕ) (b : Buffer) (at : ℕ) (l : Lease)
    → find_lease (suc fuel) (create_lease_buf b at l) at ≡ found at
unfolding create_lease_buf
created_found fuel b at l =
    lease_there fuel (create_lease_buf b at l) at (names_lease-lease_header (lease_data b at l) at)

parse_at :
    (fuel : ℕ) (b : Buffer) (at : ℕ) (c : LeaseCtx)
    → create_contexts_offset b + 4 ≡ at
    → find_lease (suc fuel) b at ≡ found at
    → read_lease b at ≡ c
    → parse_lease_state (suc fuel) b ≡ some c
unfolding parse_lease_state lease_found
parse_at fuel b at c h f r =
    ap (λ o. lease_found b (find_lease (suc fuel) b o)) h ∙ ap (lease_found b) f ∙ ap some r

-- A lease context that create_lease_buf writes where the contexts of a request start, behind the
-- field that says so, is what parse_lease_state reads there: its key, its state and its flags, with
-- a duration of 0, after one context.
pub parse_lease_state-create_lease_buf :
    (fuel : ℕ) (req : Buffer) (at : ℕ) (l : Lease)
    → FitsPacket l
    → 120 ≤ at
    → create_contexts_offset req + 4 ≡ at
    → parse_lease_state (suc fuel) (create_lease_buf req at l) ≡ some (granted l)
parse_lease_state-create_lease_buf fuel req at l h m o =
    parse_at fuel (create_lease_buf req at l) at (granted l)
      (ap (λ n. n + 4) (offset_kept req at l m) ∙ o) (created_found fuel req at l)
      (read-created req at l h)
