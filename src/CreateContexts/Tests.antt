-- ===== src/CreateContexts/Tests.antt =====
-- Witnesses for the create contexts.
use cifsd.Base.{◌+◌, ◌≡◌, refl, some, [], ◌∷◌, arith, ◌==◌, if◌then◌else◌}
use cifsd.Oplock.{Lease}
use cifsd.Wire.{Buffer, byte, le16, le32}
use cifsd.Wire.Request.{create_contexts_offset}
use cifsd.Wire.Write.{put16, put32}
use cifsd.CreateContexts.{
  found, find_context, parse_lease_state, create_lease_buf, next_context, context_name,
  context_name_length, is_string,
}
use cifsd.CreateContexts.RoundTrip.{granted, FitsPacket, parse_lease_state-create_lease_buf}
use cifsd.CreateContexts.Chain.{Chain, last, link, IsAnswer, find_context-IsAnswer}

-- A request whose contexts start behind its fixed part.
abbrev request : Buffer
request = put32 (λ i. 0) 116 120

abbrev read_handle : Lease
read_handle = record { lease_key = 7; state = 3; new_state = 0; flags = 0; duration = 0 }

read_handle-FitsPacket : FitsPacket read_handle
read_handle-FitsPacket = record {
  key_fits = omega arith;
  state_fits = omega arith;
  flags_fit = omega arith;
}

request_offset : create_contexts_offset request + 4 ≡ 124
unfolding create_contexts_offset put32 put16 le32 le16 byte
request_offset = refl

parse_lease_state-create_lease_buf_example :
    parse_lease_state 1 (create_lease_buf request 124 read_handle) ≡ some (granted read_handle)
parse_lease_state-create_lease_buf_example =
    parse_lease_state-create_lease_buf 0 request 124 read_handle read_handle-FitsPacket
      (omega arith) request_offset

-- Two contexts: one named AB at 0, the last one named C at 24, both with a name length of 4.
abbrev chain : Buffer
chain i =
    if i == 0
    then 24
    else if i == 4
    then 16
    else if i == 6
    then 4
    else if i == 16
    then 65
    else if i == 17
    then 66
    else if i == 28
    then 16
    else if i == 30
    then 4
    else if i == 40
    then 67
    else 0

chain-Chain : Chain chain 0 (0 ∷ 24 ∷ [])
unfolding next_context le32 le16 byte
chain-Chain = link (omega arith) (last refl)

find_context-IsAnswer_example :
    IsAnswer chain (67 ∷ []) (0 ∷ 24 ∷ []) (find_context 2 chain (67 ∷ []) 0)
find_context-IsAnswer_example =
    find_context-IsAnswer 2 chain (67 ∷ []) 0 (0 ∷ 24 ∷ []) chain-Chain (omega arith)

second_found : find_context 2 chain (67 ∷ []) 0 ≡ found 24
unfolding find_context next_context context_name context_name_length is_string le32 le16 byte
second_found = refl
