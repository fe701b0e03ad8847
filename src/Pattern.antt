-- ===== src/Pattern.antt =====
-- match_pattern of misc.c: a name against a pattern with the wildcards `*` and `?`. A string is the
-- list of its characters before the NUL. The kernel's `tolower` is a parameter; it maps no character
-- of a string to that of NUL, so at the end of a pattern nothing matches.
pub mod Match
pub mod Halt
pub mod Exact
mod Tests
use cifsd.Base.{
  is_empty, ℕ, zero, suc, ◌+◌, ◌*◌, Bool, true, false, Option, none, some, List, [], ◌∷◌, length,
  ◌==◌, if◌then◌else◌,
}

abbrev pub question : ℕ
question = 63

abbrev pub asterisk : ℕ
asterisk = 42

-- The local variables; `str` and `pattern` are where a scan starts again behind the last `*`.
pub record Scan : Type 0 where
  pub s : List ℕ
  pub p : List ℕ
  pub str : List ℕ
  pub pattern : List ℕ
  pub star : Bool

pub data Next : Type 0 where
  done : Bool → Next
  again : Scan → Next

pub tail : List ℕ → List ℕ
tail [] = []
tail (x ∷ xs) = xs

-- Behind the loop: one more `*` is skipped.
pub at_end : List ℕ → Bool
at_end [] = true
at_end (x ∷ p) = if x == asterisk then is_empty p else false

-- The scan goes back to the last `*`, which takes one character more.
pub mismatch : Scan → Next
unfolding tail
mismatch k =
    if k.star
    then again (record k { s = tail k.str; p = k.pattern; str = tail k.str })
    else done false

-- A `*`: the rest of the pattern is tried from here on, and at the end of the pattern all matches.
pub star_met : Scan → List ℕ → Next
star_met k p =
    if is_empty p
    then done true
    else again (record { s = k.s; p = p; str = k.s; pattern = p; star = true })

module _ (tolower : ℕ → ℕ) where
  -- The `switch` at a character of the string and one of the pattern.
  pub compare_chars : Scan → ℕ → List ℕ → ℕ → List ℕ → Next
  unfolding star_met mismatch
  compare_chars k c s x p =
      if x == question
      then again (record k { s = s; p = p })
      else if x == asterisk
      then star_met k p
      else if tolower c == tolower x
      then again (record k { s = s; p = p })
      else mismatch k

  pub scan_rest : Scan → List ℕ → List ℕ → Next
  unfolding compare_chars mismatch at_end
  scan_rest k [] p = done (at_end p)
  scan_rest k (c ∷ s) [] = mismatch k
  scan_rest k (c ∷ s) (x ∷ p) = compare_chars k c s x p

  -- One turn of the loop.
  pub scan : Scan → Next
  unfolding scan_rest
  scan k = scan_rest k k.s k.p

  -- `none` when the fuel is used up.
  pub scan_all : ℕ → Scan → Option Bool
  scan_all zero k = none
  scan_all (suc fuel) k = elim (scan k) [ done b ↦ some b | again k' ↦ scan_all fuel k' ]

  pub begin : List ℕ → List ℕ → Scan
  begin str pattern = record { s = str; p = pattern; str = str; pattern = pattern; star = false }

  pub enough : List ℕ → List ℕ → ℕ
  enough str pattern = length str * (length str + length pattern) + length str + length pattern + 1

  pub match_pattern : List ℕ → List ℕ → Option Bool
  unfolding begin enough
  match_pattern str pattern = scan_all (enough str pattern) (begin str pattern)
