-- ===== src/Pattern/Tests.antt =====
-- Runs of match_pattern of misc.c, with a `tolower` for the letters of ASCII.
use cifsd.Base.{ℕ, ◌+◌, ◌≡◌, refl, Bool, true, false, some, [], ◌∷◌, leb, if◌then◌else◌}
use cifsd.Pattern.{
  match_pattern, enough, begin, scan_all, scan, scan_rest, compare_chars, star_met, mismatch,
  at_end, tail,
}
use cifsd.Pattern.Match.{Matches, match_pattern_sound}
use cifsd.Pattern.Halt.{match_pattern_ends}

abbrev ascii_lower : ℕ → ℕ
ascii_lower c = if leb 65 c then if leb c 90 then c + 32 else c else c

-- "abab" against "A*B", and "ab" against "a**".
backtracks : match_pattern ascii_lower (97 ∷ 98 ∷ 97 ∷ 98 ∷ []) (65 ∷ 42 ∷ 66 ∷ []) ≡ some true
unfolding match_pattern enough begin scan_all scan scan_rest compare_chars star_met mismatch at_end
    tail
backtracks = refl

two_stars : match_pattern ascii_lower (97 ∷ []) (97 ∷ 42 ∷ 42 ∷ []) ≡ some false
unfolding match_pattern enough begin scan_all scan scan_rest compare_chars star_met mismatch at_end
    tail
two_stars = refl

match_pattern_sound_example : Matches ascii_lower (65 ∷ 42 ∷ 66 ∷ []) (97 ∷ 98 ∷ 97 ∷ 98 ∷ [])
match_pattern_sound_example =
    match_pattern_sound ascii_lower (97 ∷ 98 ∷ 97 ∷ 98 ∷ []) (65 ∷ 42 ∷ 66 ∷ []) backtracks

match_pattern_ends_example :
    (b : Bool) × (match_pattern ascii_lower (97 ∷ 98 ∷ []) (63 ∷ 42 ∷ 99 ∷ []) ≡ some b)
match_pattern_ends_example = match_pattern_ends ascii_lower (97 ∷ 98 ∷ []) (63 ∷ 42 ∷ 99 ∷ [])
