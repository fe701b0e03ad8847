-- ===== src/NegContexts/Tests.antt =====
-- Witnesses for the negotiate contexts.
use cifsd.Base.{ℕ, ◌≡◌, ◌↔◌, refl, inr, true, arith, leb, if◌then◌else◌}
use cifsd.Wire.{Buffer, byte, le16, le32}
use cifsd.Wire.Request.{negotiate_context_offset, negotiate_context_count}
use cifsd.Wire.Write.{put16, put32, put_bytes, put_be32, inc_rfc1001_len}
use cifsd.NegContexts.{
  status_success, PreauthInfo, zeroed_info, build_preauth_ctxt, build_encrypt_ctxt,
  assemble_neg_contexts, deassemble_neg_contexts,
}
use cifsd.NegContexts.Read.{HasHash, deassemble-success_iff}
use cifsd.NegContexts.RoundTrip.{offset_of_neg_context, IsEcho, assemble-deassemble}

abbrev blank : Buffer
blank i = 0

abbrev with_cipher : PreauthInfo
with_cipher = record { hash_id = 1; cipher_id = 1 }

abbrev response : Buffer
response = put32 blank 128 offset_of_neg_context

-- A request with `count` contexts, which stand in `from` at the place where a response has them.
abbrev request : Buffer → ℕ → Buffer
request from count i =
    if leb 212 i then from i else put16 (put32 blank 96 offset_of_neg_context) 100 count i

abbrev echo : Buffer
echo = request (assemble_neg_contexts blank with_cipher response) 2

echo-IsEcho : IsEcho (assemble_neg_contexts blank with_cipher response) echo
unfolding assemble_neg_contexts build_preauth_ctxt build_encrypt_ctxt put16 put32 put_bytes
    inc_rfc1001_len put_be32 le16 le32 byte negotiate_context_count negotiate_context_offset
echo-IsEcho = record { count = refl; bytes = λ i. ground arith }

response_offset : le32 response 128 ≡ offset_of_neg_context
unfolding le32 le16 byte put32 put16
response_offset = refl

assemble-deassemble_example :
    deassemble_neg_contexts true echo zeroed_info ≡ (with_cipher, status_success)
assemble-deassemble_example =
    assemble-deassemble true blank response echo with_cipher refl (inr (refl, refl)) response_offset
      echo-IsEcho

deassemble-success_iff_example :
    ((deassemble_neg_contexts true echo zeroed_info).1 ≡ status_success) ↔ HasHash echo
deassemble-success_iff_example = deassemble-success_iff true echo

-- The same contexts, with one of another kind before the ciphers.
abbrev with_name : Buffer
with_name = put16 echo 260 5
