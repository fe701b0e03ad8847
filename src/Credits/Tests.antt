-- ===== src/Credits/Tests.antt =====
-- A fresh connection, and one that holds credits.
use cifsd.Base.{◌≡◌, refl, false, some, arith}
use cifsd.Base.Int.{pos}
use cifsd.Credits.{Conn, Exchange, exchange, min_credits, asked_credits}
use cifsd.Credits.Bounds.{IsBounded}

abbrev fresh : Conn
fresh = record { max_credits = 8192; credits_granted = pos 0 }

abbrev holder : Conn
holder = record { max_credits = 8192; credits_granted = pos 3 }

abbrev reading : Exchange
reading = record { credit_charge = 2; credit_request = 10; command = 8; status = 0; async = false }

holder-IsBounded : IsBounded holder
unfolding min_credits
holder-IsBounded = record { room = omega arith; narrow = omega arith; within = omega arith }

reading-exchange : exchange holder reading ≡ some (record holder { credits_granted = pos 11 }, 10)
unfolding exchange asked_credits
reading-exchange = refl
