-- ===== src/Credits.antt =====
-- The credits of a connection: smb2_set_rsp_credits and the part of init_smb2_rsp_hdr that takes
-- them back, of smb2pdu.c. `credits_granted` of the connection is an `int`.
pub mod Bounds
mod Tests
use cifsd.Base.{
  ℕ, ◌+◌, ◌-◌, ◌/◌, ◌%◌, Bool, true, false, Option, none, some, List, [], ◌∷◌, ltb, leb, ◌==◌,
  if◌then◌else◌,
}
use cifsd.Base.Int.{ℤ, pos, negsuc, pos_part, neg_part, ◌+ℤ◌, ◌-ℤ◌, ltb_ℤ}

pub record Conn : Type 0 where
  pub max_credits : ℕ
  pub credits_granted : ℤ

-- What the credit code reads of a request and of its response.
pub record Exchange : Type 0 where
  pub credit_charge : ℕ
  pub credit_request : ℕ
  pub command : ℕ
  pub status : ℕ
  pub async : Bool

is_zero : ℤ → Bool
is_zero (pos n) = n == 0
is_zero (negsuc n) = false

-- An `int` stored in an `unsigned short`.
to_u16 : ℤ → ℕ
to_u16 z = (pos_part z + 65536 - neg_part z % 65536) % 65536

-- A value stored in an `int`, which wraps around.
pub to_s32 : ℤ → ℤ
to_s32 z =
    let u = (pos_part z + 4294967296 - neg_part z % 4294967296) % 4294967296 in
    if ltb u 2147483648 then pos u else negsuc (4294967295 - u)

-- `if (conn->credits_granted) ...` of init_smb2_rsp_hdr.
pub init_smb2_rsp_hdr_credits : Conn → Exchange → Conn
unfolding is_zero ◌-ℤ◌ to_s32
init_smb2_rsp_hdr_credits c x = if is_zero c.credits_granted then c else record c {
  credits_granted =
      to_s32 (c.credits_granted -ℤ pos (if x.credit_charge == 0 then 1 else x.credit_charge));
}

pub min_credits : Conn → ℕ
min_credits c = c.max_credits / 16 % 65536

aux_max : ℕ → ℕ → ℕ
aux_max command status =
    if command == 0 then 0 else if command == 1 then if status == 0 then 32 else 0 else 32

-- The credits of a request for some, before the limit: one, and those beyond it up to `aux_max`.
pub asked_credits : Exchange → ℕ
unfolding aux_max
asked_credits x =
    (if ltb (x.credit_request - 1) (aux_max x.command x.status)
      then x.credit_request - 1
      else aux_max x.command x.status)
    + 1

-- The local variable `credits_granted` at the end of the function.
pub response_credits : Conn → Exchange → ℕ
unfolding to_u16 is_zero min_credits ◌+ℤ◌ ◌-ℤ◌
response_credits c x =
    if x.async
    then 0
    else if ltb 0 x.credit_request
    then if ltb_ℤ (pos (min_credits c)) (c.credits_granted +ℤ pos (asked_credits x))
      then to_u16 (pos (min_credits c) -ℤ c.credits_granted)
      else asked_credits x
    else if is_zero c.credits_granted
    then 1
    else 0

-- The connection and the `CreditRequest` of the response; `none` is BUG_ON.
pub smb2_set_rsp_credits : Conn → Exchange → Option (Conn × ℕ)
unfolding ◌+ℤ◌ response_credits to_s32
smb2_set_rsp_credits c x =
    if ltb_ℤ c.credits_granted (pos c.max_credits)
    then some (
      record c { credits_granted = to_s32 (c.credits_granted +ℤ pos (response_credits c x)) },
      response_credits c x,
    )
    else none

-- One request and its response.
pub exchange : Conn → Exchange → Option (Conn × ℕ)
unfolding init_smb2_rsp_hdr_credits smb2_set_rsp_credits
exchange c x = smb2_set_rsp_credits (init_smb2_rsp_hdr_credits c x) x

pub exchanges : Conn → List Exchange → Option Conn
exchanges c [] = some c
exchanges c (x ∷ xs) = elim (exchange c x) [ none ↦ none | some (c', _) ↦ exchanges c' xs ]
