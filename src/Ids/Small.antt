-- ===== src/Ids/Small.antt =====
-- An IDA with room for three ids, the reserved ones of mgmt/cifsd_ida.c first.
use cifsd.Base.{
  ℕ, Bool, true, false, not, ◌&&◌, Option, none, some, ltb, leb, ◌==◌, ◌||◌, if◌then◌else◌, arith,
}
use cifsd.Ids.{Ida, IdaLaws}

abbrev is_allowed : (ℕ → Bool) → ℕ → ℕ → ℕ → Bool
is_allowed t start end id = leb start id && (end == 0 || ltb id end) && not (t id)

abbrev pub take : (ℕ → Bool) → ℕ → ℕ → Bool
take t id x = if x == id then true else t x

abbrev drop : (ℕ → Bool) → ℕ → ℕ → Bool
drop t id x = if x == id then false else t x

abbrev small_get : (ℕ → Bool) → ℕ → ℕ → Option (ℕ × (ℕ → Bool))
small_get t start end =
    if is_allowed t start end 0xffff
    then some (0xffff, take t 0xffff)
    else if is_allowed t start end 0xfffe
    then some (0xfffe, take t 0xfffe)
    else if is_allowed t start end 5
    then some (5, take t 5)
    else none

abbrev pub small : Ida (ℕ → Bool)
small = record { ida_simple_get = small_get; ida_simple_remove = drop; is_taken = λ t id. t id }

pub small-IdaLaws : IdaLaws small
small-IdaLaws = record {
  get_free = λ t t' start end id e. ground arith;
  get_taken = λ t t' start end id e. ground arith;
  get_other = λ t t' start end id other e d. ground arith;
  get_range = λ t t' start end id e. (ground arith, ground arith);
  remove_free = λ t id. ground arith;
  remove_other = λ t id other d. ground arith;
}
