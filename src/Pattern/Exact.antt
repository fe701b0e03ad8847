-- ===== src/Pattern/Exact.antt =====
-- On a pattern without `*`, match_pattern of misc.c answers exactly.
use cifsd.Base.{
  ℕ, zero, suc, ◌≡◌, ◌≢◌, ◌↔◌, refl, ap, ◌∙◌, inl, inr, Bool, true, false, some, List, [], ◌∷◌, All,
  ◌==◌, Bool-cases, arith,
}
use cifsd.Pattern.{
  question, asterisk, Scan, Next, done, again, at_end, compare_chars, scan_rest, scan, scan_all,
  begin, match_pattern, enough,
}
use cifsd.Pattern.Match.{
  Matches, ends, any_char, same_char, star_none, star_more, match_pattern_sound,
}
use cifsd.Pattern.Halt.{match_pattern_ends}

abbrev pub NoStar : List ℕ → Type 0
NoStar = All (λ x. x ≢ asterisk)

module _ (tolower : ℕ → ℕ) where
  -- The next turn of a scan that is to succeed.
  abbrev Going : Next → Type 0
  Going (done b) = b ≡ true
  Going (again k) = Matches tolower k.p k.s × NoStar k.p

  compare_chars-Going :
      (k : Scan) (c : ℕ) (s : List ℕ) (x : ℕ) (p : List ℕ)
      → Matches tolower (x ∷ p) (c ∷ s)
      → NoStar (x ∷ p)
      → Going (compare_chars tolower k c s x p)
  unfolding compare_chars
  compare_chars-Going k c s x p (any_char e m) h =
      let q : x == question ≡ true = ground arith in rw q (m, h.1)
  compare_chars-Going k c s x p (same_char e m) h = elim (Bool-cases (x == question)) [
    | inl q ↦ rw q (m, h.1)
    | inr q ↦
        let a : x == asterisk ≡ false = ground (arith, h.0) in
        let same : tolower c == tolower x ≡ true = ground arith in rw (q, a, same) (m, h.1)
  ]
  compare_chars-Going k c s x p (star_none e m) h = absurd (h.0 e)
  compare_chars-Going k c s x p (star_more e m) h = absurd (h.0 e)

  scan-Going : (k : Scan) → Matches tolower k.p k.s → NoStar k.p → Going (scan tolower k)
  unfolding scan scan_rest
  scan-Going k m h = rest k.s k.p m h
    where
      rest : (s p : List ℕ) → Matches tolower p s → NoStar p → Going (scan_rest tolower k s p)
      rest [] [] m h = refl
      rest [] (x ∷ p) (star_none e m) h = absurd (h.0 e)
      rest (c ∷ s) [] m h = elim m [ ]
      rest (c ∷ s) (x ∷ p) m h = compare_chars-Going k c s x p m h

  follow :
      {b : Bool} (n : ℕ) (next : Next)
      → Going next
      → ((k : Scan)
          → Matches tolower k.p k.s
          → NoStar k.p
          → scan_all tolower n k ≡ some b
          → b ≡ true)
      → (elim next [ done b' ↦ some b' | again k ↦ scan_all tolower n k ]) ≡ some b
      → b ≡ true
  follow n (done b') g ih e = ground arith
  follow n (again k) g ih e = ih k g.0 g.1 e

  scan_all_succeeds :
      {b : Bool} (n : ℕ) (k : Scan)
      → Matches tolower k.p k.s
      → NoStar k.p
      → scan_all tolower n k ≡ some b
      → b ≡ true
  unfolding scan_all
  scan_all_succeeds zero k m h e = absurd (ground arith)
  scan_all_succeeds (suc n) k m h e =
      follow n (scan tolower k) (scan-Going k m h) (scan_all_succeeds n) e

-- On a pattern without `*`, match_pattern answers true exactly for the names that match.
pub match_pattern_exact :
    (tolower : ℕ → ℕ) (str pattern : List ℕ)
    → NoStar pattern
    → (match_pattern tolower str pattern ≡ some true) ↔ Matches tolower pattern str
unfolding match_pattern begin
match_pattern_exact tolower str pattern h = (
  match_pattern_sound tolower str pattern,
  λ m.
      let (b, e) = match_pattern_ends tolower str pattern in
      let yes =
        scan_all_succeeds tolower (enough tolower str pattern) (begin tolower str pattern) m h e in
      e ∙ ap some yes,
)

module _ (tolower : ℕ → ℕ) (n : ℕ) where
  scan_all_again :
      (k k' : Scan) → scan tolower k ≡ again k' → scan_all tolower (suc n) k ≡ scan_all tolower n k'
  unfolding scan_all
  scan_all_again k k' e = ap (λ x. elim x [ done b ↦ some b | again q ↦ scan_all tolower n q ]) e

  scan_all_done :
      (k : Scan) (b : Bool) → scan tolower k ≡ done b → scan_all tolower (suc n) k ≡ some b
  unfolding scan_all
  scan_all_done k b e = ap (λ x. elim x [ done c ↦ some c | again q ↦ scan_all tolower n q ]) e

abbrev one_taken : ℕ → Scan
one_taken c = record {
  s = [];
  p = 42 ∷ 42 ∷ [];
  str = c ∷ [];
  pattern = c ∷ 42 ∷ 42 ∷ [];
  star = false;
}

first_taken :
    (tolower : ℕ → ℕ) (c : ℕ)
    → c ≢ question
    → c ≢ asterisk
    → scan tolower (begin tolower (c ∷ []) (c ∷ 42 ∷ 42 ∷ [])) ≡ again (one_taken c)
unfolding scan scan_rest compare_chars begin
first_taken tolower c nq ns =
    let q : c == question ≡ false = ground arith in
    let a : c == asterisk ≡ false = ground arith in
    let same : tolower c == tolower c ≡ true = ground arith in rw (q, a, same) refl

two_left : (tolower : ℕ → ℕ) (c : ℕ) → scan tolower (one_taken c) ≡ done false
unfolding scan scan_rest at_end
two_left tolower c = refl

-- With two `*` behind it, a character that is no wildcard is refused, although the pattern matches it:
-- behind the end of the string only one `*` is skipped.
pub two_stars_missed :
    (tolower : ℕ → ℕ) (c : ℕ)
    → c ≢ question
    → c ≢ asterisk
    → (match_pattern tolower (c ∷ []) (c ∷ 42 ∷ 42 ∷ []) ≡ some false)
      × Matches tolower (c ∷ 42 ∷ 42 ∷ []) (c ∷ [])
unfolding match_pattern enough
two_stars_missed tolower c nq ns = (
  scan_all_again tolower 8 (begin tolower (c ∷ []) (c ∷ 42 ∷ 42 ∷ [])) (one_taken c)
        (first_taken tolower c nq ns)
      ∙ scan_all_done tolower 7 (one_taken c) false (two_left tolower c),
  same_char refl (star_none refl (star_none refl ends)),
)
