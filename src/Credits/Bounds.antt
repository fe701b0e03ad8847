-- ===== src/Credits/Bounds.antt =====
-- What smb2_set_rsp_credits and init_smb2_rsp_hdr of smb2pdu.c keep of a connection's credits.
use cifsd.Base.{◌*◌, ℕ, ◌+◌, ◌≤◌, ◌<◌, ◌≡◌, refl, true, some, arith, ◌==◌, if◌then◌else◌}
use cifsd.Base.Int.{ℤ, pos, negsuc, pos_part, neg_part, ◌+ℤ◌, ◌≤ℤ◌, ltb_ℤ, +ℤ_parts}
use cifsd.Credits.{
  to_s32, Conn, Exchange, min_credits, asked_credits, response_credits, smb2_set_rsp_credits,
}

-- At most a sixteenth of the maximum is granted. That is a number of 16 bits, and at least one.
pub record IsBounded (c : Conn) : Type 0 where
  pub room : 16 ≤ c.max_credits
  pub narrow : c.max_credits < 1048576
  pub within : c.credits_granted ≤ℤ pos (min_credits c)

-- How far an `int` is from its lower end, for a number of charges of 16 bits.
abbrev pub HasRoom : Conn → ℕ → Type 0
HasRoom c n = neg_part c.credits_granted + 65536 * n ≤ 2147483648

-- The charge is a number of 16 bits.
abbrev pub IsWordCharge : Exchange → Type 0
IsWordCharge x = x.credit_charge < 65536

fits_int : (z : ℤ) → pos_part z < 2147483648 → neg_part z ≤ 2147483648 → to_s32 z ≡ z
unfolding to_s32
fits_int (pos n) p h = ground arith
fits_int (negsuc n) p h = ground arith

plus_fits :
    (a : ℤ) (k : ℕ)
    → pos_part a + k < 2147483648
    → neg_part a ≤ 2147483648
    → to_s32 (a +ℤ pos k) ≡ a +ℤ pos k
plus_fits a k p h =
    fits_int (a +ℤ pos k) (unfold ◌+ℤ◌ in ground arith) (unfold ◌+ℤ◌ in ground arith)

granted_fits : (c : Conn) → IsBounded c → pos_part c.credits_granted < 65536
unfolding min_credits
granted_fits c b = let w = b.within in ground (arith, w)

charged : Exchange → ℕ
charged x = if x.credit_charge == 0 then 1 else x.credit_charge

asked_credits_le : (x : Exchange) → (1 ≤ asked_credits x) × (asked_credits x ≤ 33)
unfolding asked_credits
asked_credits_le x = ground arith

response_credits_le : (c : Conn) (x : Exchange) → IsBounded c → response_credits c x ≤ 33
unfolding response_credits
response_credits_le c x b = ground (arith, asked_credits_le x)

grant_within :
    (c : Conn) (x : Exchange) (k : ℕ)
    → IsBounded c
    → HasRoom c k
    → (c.credits_granted +ℤ pos (response_credits c x) ≤ℤ pos (min_credits c))
      × (neg_part (c.credits_granted +ℤ pos (response_credits c x)) + 65536 * k ≤ 2147483648)
unfolding response_credits
grant_within c x k b r =
    (ground (arith, asked_credits_le x, b.within), ground (arith, +ℤ_parts c.credits_granted))

granted_below : (c : Conn) → IsBounded c → ltb_ℤ c.credits_granted (pos c.max_credits) ≡ true
unfolding min_credits
granted_below c b = let w = b.within in ground (arith, w)

-- A response finds the limit of BUG_ON far away, keeps the total within a sixteenth of the maximum,
-- takes nothing from it, and grants at most 33 credits.
pub set_credits-IsBounded :
    (c : Conn) (x : Exchange) (k : ℕ)
    → IsBounded c
    → HasRoom c k
    → (c' : Conn) × (n : ℕ) × (smb2_set_rsp_credits c x ≡ some (c', n))
      × IsBounded c'
      × HasRoom c' k
      × (n ≤ 33)
unfolding smb2_set_rsp_credits
set_credits-IsBounded c x k b r =
    let p = granted_fits c b in
    let l = response_credits_le c x b in
    let e = plus_fits c.credits_granted (response_credits c x) (omega arith) (omega arith) in
    let (within', room') = grant_within c x k b r in
    (
      record c { credits_granted = c.credits_granted +ℤ pos (response_credits c x) },
      response_credits c x,
      rw (granted_below c b, e) refl,
      record { room = b.room; narrow = b.narrow; within = within' },
      room',
      l,
    )
