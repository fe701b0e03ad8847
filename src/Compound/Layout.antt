-- ===== src/Compound/Layout.antt =====
-- How the answers of a compound request lie in the response: smb2pdu.c and the loop of server.c.
use cifsd.Base.{ℕ, suc, ◌+◌, ◌-◌, ◌%◌, ◌≡◌, ◌≤◌, ◌<◌, ◌∙◌, ◌==◌, arith, add32, sub32, if◌then◌else◌}
use cifsd.Wire.Hdr
use cifsd.Compound.{
  rfc1002_length, SmbWork, current, align8, store_fid, next_offsets, keep_fid, new_header,
  init_chained_smb2_rsp,
}

-- The NextCommand of the header of the response at an offset.
abbrev pub next_at : SmbWork → ℕ → ℕ
next_at w x = (w.rsp x).next_command

-- What init_chained_smb2_rsp does to the work.
pub record IsNext (w w' : SmbWork) : Type 0 where
  pub request : w'.request ≡ w.request
  pub rcv_off : w'.rcv_off ≡ add32 w.rcv_off (Hdr.next_command (current w))
  pub rsp_off : w'.rsp_off ≡ add32 w.rsp_off (align8 (sub32 (rfc1002_length w.rfc_len) w.rsp_off))
  pub rfc_len :
      w'.rfc_len
      ≡ add32 w.rfc_len (
          64
          + (align8 (sub32 (rfc1002_length w.rfc_len) w.rsp_off)
              - sub32 (rfc1002_length w.rfc_len) w.rsp_off))
  pub links :
      (x : ℕ)
      → next_at w' x ≡ (
          if x == w'.rsp_off
          then 0
          else if x == w.rsp_off
          then align8 (sub32 (rfc1002_length w.rfc_len) w.rsp_off)
          else next_at w x)
  pub sess : w'.sess ≡ w.sess

pub chained-IsNext : (w : SmbWork) → IsNext w (init_chained_smb2_rsp w)
unfolding init_chained_smb2_rsp new_header keep_fid next_offsets store_fid
chained-IsNext w = record {
  request = ground arith;
  rcv_off = ground arith;
  rsp_off = ground arith;
  rfc_len = ground arith;
  links = λ x. ground arith;
  sess = ground arith;
}

-- From the first header of the response, `k` steps by NextCommand lead to the offset; each is a multiple
-- of 8 and no shorter than a header.
pub data Reaches (next : ℕ → ℕ) : ℕ → ℕ → Type 0 where
  first : Reaches next 0 0
  link :
      {k o o' : ℕ}
      → Reaches next k o
      → 64 ≤ next o
      → next o % 8 ≡ 0
      → o' ≡ o + next o
      → Reaches next (suc k) o'

pub Reaches-same :
    (next next' : ℕ → ℕ) (k o : ℕ)
    → Reaches next k o
    → ((x : ℕ) → x < o → next' x ≡ next x)
    → Reaches next' k o
Reaches-same next next' _ _ first e = first
Reaches-same next next' (suc k) o' (link {o = o} r l a p) e =
    let here = e o (omega arith) in
    link (Reaches-same next next' k o r (λ x h. e x (omega arith))) (omega arith)
      (ground (arith, here)) (omega arith)

-- The answers so far: `k` of them are closed, and the one in work has its header and no more than `fits`
-- allows.
pub record IsLaidOut (k : ℕ) (w : SmbWork) : Type 0 where
  pub header : w.rsp_off + 64 ≤ w.rfc_len
  pub reached : Reaches (next_at w) k w.rsp_off
  pub ends : 1 ≤ k → next_at w w.rsp_off ≡ 0

pub align8-bounds : (x : ℕ) → (x ≤ align8 x) × (align8 x ≤ x + 7) × (align8 x % 8 ≡ 0)
unfolding align8
align8-bounds x = (omega arith, omega arith, omega arith)

pub next-IsLaidOut :
    (k : ℕ) (w w' : SmbWork)
    → IsNext w w'
    → IsLaidOut k w
    → w.rfc_len + 71 < 16777216
    → IsLaidOut (suc k) w' × (w'.rfc_len ≤ w.rfc_len + 71)
next-IsLaidOut k w w' n h f =
    let len : sub32 (rfc1002_length w.rfc_len) w.rsp_off ≡ w.rfc_len - w.rsp_off =
      ground (arith, h.header) in
    let b = align8-bounds (w.rfc_len - w.rsp_off) in
    let off : w'.rsp_off ≡ w.rsp_off + align8 (w.rfc_len - w.rsp_off) =
      n.rsp_off ∙ ground (arith, len, b, h.header) in
    let total : w'.rfc_len ≡ w'.rsp_off + 64 = n.rfc_len ∙ ground (arith, len, b, h.header, off) in
    let here : next_at w' w.rsp_off ≡ align8 (w.rfc_len - w.rsp_off) =
      ground (arith, n.links w.rsp_off, len, off, b, h.header) in
    (
      record {
        header = omega arith;
        reached =
            link
              (Reaches-same (next_at w) (next_at w') k w.rsp_off h.reached
                (λ x l. ground (arith, n.links x, off)))
              (omega (arith, h.header)) (ground (arith, here, b)) (ground (arith, here, off));
        ends = λ p. ground (arith, n.links w'.rsp_off);
      },
      omega arith,
    )
