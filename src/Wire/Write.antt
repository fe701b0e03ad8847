-- ===== src/Wire/Write.antt =====
-- Writes to a packet: the little endian fields of the packed structures, and inc_rfc1001_len of glob.h.
use cifsd.Base.{
  ℕ, ◌+◌, ◌-◌, ◌*◌, ◌/◌, ◌%◌, ◌≡◌, ◌∙◌, ◌≤◌, ◌<◌, ◌⊎◌, inl, ◌&&◌, arith, ltb, leb, ◌==◌, add32,
  if◌then◌else◌,
}
use cifsd.Wire.{Buffer, byte, le16, le32, le64}

unfoldable pub put16 : Buffer → ℕ → ℕ → Buffer
put16 b o v i = if i == o then v % 256 else if i == o + 1 then v / 256 % 256 else b i

unfoldable pub put32 : Buffer → ℕ → ℕ → Buffer
unfolding put16
put32 b o v = put16 (put16 b o (v % 65536)) (o + 2) (v / 65536)

-- memcpy of `n` bytes
unfoldable pub put_bytes : Buffer → ℕ → ℕ → Buffer → Buffer
put_bytes b o n from i = if leb o i && ltb i (o + n) then from (i - o) else b i

-- The big endian word at the start of a packet.
unfoldable pub be32 : Buffer → ℕ
unfolding byte
be32 b = 16777216 * byte b 0 + 65536 * byte b 1 + 256 * byte b 2 + byte b 3

unfoldable pub put_be32 : Buffer → ℕ → Buffer
put_be32 b v i =
    if i == 0
    then v / 16777216 % 256
    else if i == 1
    then v / 65536 % 256
    else if i == 2
    then v / 256 % 256
    else if i == 3
    then v % 256
    else b i

unfoldable pub inc_rfc1001_len : Buffer → ℕ → Buffer
unfolding be32 put_be32
inc_rfc1001_len b count = put_be32 b (add32 (be32 b) count)

-- Two fields of `n` and `m` bytes that do not meet.
abbrev pub Apart : ℕ → ℕ → ℕ → ℕ → Type 0
Apart o n p m = (o + n ≤ p) ⊎ (p + m ≤ o)

pub le16-put16 : (b : Buffer) (o v : ℕ) → v < 65536 → le16 (put16 b o v) o ≡ v
unfolding put16 le16 byte
le16-put16 b o v h = ground arith

pub le16-put16_other : (b : Buffer) (o p v : ℕ) → Apart o 2 p 2 → le16 (put16 b p v) o ≡ le16 b o
unfolding put16 le16 byte
le16-put16_other b o p v h = ground arith

pub le32-put16_other : (b : Buffer) (o p v : ℕ) → Apart o 4 p 2 → le32 (put16 b p v) o ≡ le32 b o
unfolding put16 le32 le16 byte
le32-put16_other b o p v h = ground arith

pub le32-put32 : (b : Buffer) (o v : ℕ) → v < 4294967296 → le32 (put32 b o v) o ≡ v
unfolding put32 put16 le32 le16 byte
le32-put32 b o v h = ground arith

pub le16-put32_other : (b : Buffer) (o p v : ℕ) → Apart o 2 p 4 → le16 (put32 b p v) o ≡ le16 b o
unfolding put32 put16 le16 byte
le16-put32_other b o p v h = ground arith

pub le32-put32_other : (b : Buffer) (o p v : ℕ) → Apart o 4 p 4 → le32 (put32 b p v) o ≡ le32 b o
unfolding put32 put16 le32 le16 byte
le32-put32_other b o p v h = ground arith

pub le16-put_bytes_other :
    (b from : Buffer) (o p n : ℕ) → Apart o 2 p n → le16 (put_bytes b p n from) o ≡ le16 b o
unfolding put_bytes le16 byte
le16-put_bytes_other b from o p n h = ground arith

pub le16-inc_rfc1001_len :
    (b : Buffer) (o count : ℕ) → 4 ≤ o → le16 (inc_rfc1001_len b count) o ≡ le16 b o
unfolding inc_rfc1001_len put_be32 le16 byte
le16-inc_rfc1001_len b o count h = ground arith

pub le32-inc_rfc1001_len :
    (b : Buffer) (o count : ℕ) → 4 ≤ o → le32 (inc_rfc1001_len b count) o ≡ le32 b o
unfolding inc_rfc1001_len put_be32 le32 le16 byte
le32-inc_rfc1001_len b o count h = ground arith

pub be32-inc_rfc1001_len :
    (b : Buffer) (count : ℕ) → be32 (inc_rfc1001_len b count) ≡ add32 (be32 b) count
unfolding inc_rfc1001_len put_be32 be32 byte
be32-inc_rfc1001_len b count = ground arith

unfoldable pub put64 : Buffer → ℕ → ℕ → Buffer
unfolding put32
put64 b o v = put32 (put32 b o (v % 4294967296)) (o + 4) (v / 4294967296)

apart : (o p m : ℕ) → Apart o 8 p m → Apart o 4 p m
apart o p m h = ground arith

upper_half : (o p m : ℕ) → Apart o 8 p m → Apart (o + 4) 4 p m
upper_half o p m h = ground arith

pub le64-put64 : (b : Buffer) (o v : ℕ) → v < 18446744073709551616 → le64 (put64 b o v) o ≡ v
unfolding put64 le64
le64-put64 b o v h =
    let low = le32-put32 b o (v % 4294967296) (omega arith) in
    let high = le32-put32 (put32 b o (v % 4294967296)) (o + 4) (v / 4294967296) (omega arith) in
    let same =
      le32-put32_other (put32 b o (v % 4294967296)) o (o + 4) (v / 4294967296)
        (inl (omega arith)) in
    omega (arith, low, high, same)

pub le64-put16_other : (b : Buffer) (o p v : ℕ) → Apart o 8 p 2 → le64 (put16 b p v) o ≡ le64 b o
unfolding le64
le64-put16_other b o p v h =
    let low = le32-put16_other b o p v (apart o p 2 h) in
    let high = le32-put16_other b (o + 4) p v (upper_half o p 2 h) in omega (arith, low, high)

pub le64-put32_other : (b : Buffer) (o p v : ℕ) → Apart o 8 p 4 → le64 (put32 b p v) o ≡ le64 b o
unfolding le64
le64-put32_other b o p v h =
    let low = le32-put32_other b o p v (apart o p 4 h) in
    let high = le32-put32_other b (o + 4) p v (upper_half o p 4 h) in omega (arith, low, high)

pub le64-put64_other : (b : Buffer) (o p v : ℕ) → Apart o 8 p 8 → le64 (put64 b p v) o ≡ le64 b o
unfolding put64
le64-put64_other b o p v h =
    le64-put32_other (put32 b p (v % 4294967296)) o (p + 4) (v / 4294967296) (ground arith)
    ∙ le64-put32_other b o p (v % 4294967296) (ground arith)

-- A field depends on its own bytes only.
pub le32-same : (b b' : Buffer) (o : ℕ) → ((i : ℕ) → o ≤ i → b' i ≡ b i) → le32 b' o ≡ le32 b o
unfolding le32 le16 byte
le32-same b b' o h = ground (
  arith,
  h o (omega arith),
  h (o + 1) (omega arith),
  h (o + 2) (omega arith),
  h (o + 3) (omega arith),
  h (o + 2 + 1) (omega arith),
)

pub le64-same : (b b' : Buffer) (o : ℕ) → ((i : ℕ) → o ≤ i → b' i ≡ b i) → le64 b' o ≡ le64 b o
unfolding le64
le64-same b b' o h =
    let low = le32-same b b' o h in
    let high = le32-same b b' (o + 4) (λ i l. h i (omega arith)) in omega (arith, low, high)
