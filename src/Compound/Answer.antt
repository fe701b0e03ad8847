-- ===== src/Compound/Answer.antt =====
-- The loop of server.c over a compound request ends, and its answers lie in the response one behind the
-- other.
use cifsd.Base.{ℕ, zero, suc, ◌+◌, ◌%◌, ◌≡◌, ◌≢◌, ◌≤◌, ◌<◌, Option, some}
use cifsd.Wire.{Buffer, advance}
use cifsd.Wire.Hdr
use cifsd.Compound.{proto_number, SmbWork}
use cifsd.Compound.Serve.{WorkResult, dropped, sent}
use cifsd.Compound.Layout.{IsLaidOut}

-- From the offset on, the packet has `n` requests more behind the one there.
pub data Links (req : Buffer) : ℕ → ℕ → Type 0 where
  last : {off : ℕ} → Hdr.next_command (advance req off) ≡ 0 → Links req off 0
  more :
      {off n : ℕ}
      → 0 < Hdr.next_command (advance req off)
      → off + Hdr.next_command (advance req off) < 4294967296
      → Links req (off + Hdr.next_command (advance req off)) n
      → Links req off (suc n)

-- Room for the answers of `n` requests behind the current one.
unfoldable pub room : ℕ → ℕ → ℕ
room m zero = m + 8
room m (suc n) = m + 71 + room m n

-- A request in work, with `n` more behind it in the packet and `k` answers closed.
pub record IsServed (m k n : ℕ) (w : SmbWork) : Type 0 where
  pub laid_out : IsLaidOut k w
  pub protocol : Hdr.protocol_id w.request ≡ proto_number
  pub chain : Links w.request w.rcv_off n
  pub behind : 1 ≤ k → w.rcv_off ≢ 0
  pub fits : w.rfc_len + room m n < 16777216

-- A response with `k` headers before its last one; its length is a multiple of 8 if there are any.
pub data IsAnswered (k : ℕ) : Option WorkResult → Type 0 where
  no_response : IsAnswered k (some dropped)
  response :
      {w : SmbWork} → IsLaidOut k w → (1 ≤ k → w.rfc_len % 8 ≡ 0) → IsAnswered k (some (sent w))
