-- ===== src/Pattern/Halt.antt =====
-- The loop of match_pattern of misc.c ends: the fuel of the model is enough.
use cifsd.Base.{
  ℕ, zero, suc, ◌+◌, ◌*◌, ◌≤◌, ◌<◌, ◌≡◌, refl, inl, inr, Bool, some, List, [], ◌∷◌, length, ◌==◌,
  Bool-cases, arith,
}
use cifsd.Pattern.{
  question, asterisk, Scan, Next, done, again, tail, mismatch, star_met, compare_chars, scan_rest,
  scan, scan_all, begin, enough, match_pattern,
}
use cifsd.Pattern.Match.{mismatch_starred, mismatch_plain}

-- The rest of the string is within the one behind the last `*`, and both are within the bound with
-- either pattern.
record IsWithin (bound : ℕ) (k : Scan) : Type 0 where
  rest : length k.s ≤ length k.str
  saved : length k.str + length k.pattern ≤ bound
  ahead : length k.str + length k.p ≤ bound

measure : ℕ → Scan → ℕ
measure bound k = length k.str * bound + length k.s + length k.p

-- The next turn, if there is one, is nearer to the end.
abbrev Nearer : ℕ → ℕ → Next → Type 0
Nearer bound m (done b) = Unit
Nearer bound m (again k) = IsWithin bound k × (measure bound k < m)

mul_le : (a b c : ℕ) → a ≤ b → a * c ≤ b * c
mul_le zero b c h = omega arith
mul_le (suc a) zero c h = omega arith
mul_le (suc a) (suc b) c h = omega (arith, mul_le a b c (omega arith))

mul_suc : (a b c : ℕ) → a ≡ suc b → a * c ≡ b * c + c
mul_suc a b c e = rw e (omega arith)

tail_shorter : (xs : List ℕ) → 0 < length xs → length xs ≡ suc (length (tail xs))
unfolding tail
tail_shorter [] h = omega arith
tail_shorter (x ∷ xs) h = refl

module _ (tolower : ℕ → ℕ) (bound : ℕ) where
  mismatch-Nearer :
      (k : Scan) (c : ℕ) (s : List ℕ)
      → k.s ≡ c ∷ s
      → IsWithin bound k
      → Nearer bound (measure bound k) (mismatch k)
  unfolding measure
  mismatch-Nearer k c s e w =
      let long : 0 < length k.str = ground arith in
      let shorter = tail_shorter k.str long in
      let product = mul_suc (length k.str) (length (tail k.str)) bound shorter in
      elim (Bool-cases k.star) [
        | inl starred ↦
            rw (mismatch_starred tolower k starred) (
              record { rest = omega arith; saved = omega arith; ahead = omega arith },
              ground arith,
            )
        | inr plain ↦ rw (mismatch_plain tolower k plain) tt
      ]

  star_met-Nearer :
      (k : Scan) (x : ℕ) (p : List ℕ)
      → k.p ≡ x ∷ p
      → IsWithin bound k
      → Nearer bound (measure bound k) (star_met k p)
  unfolding star_met measure
  star_met-Nearer k x [] e w = tt
  star_met-Nearer k x (y ∷ p) e w =
      let ahead : suc (length (y ∷ p)) ≡ length k.p = ground arith in
      (
        record { rest = omega arith; saved = omega arith; ahead = omega arith },
        omega (arith, mul_le (length k.s) (length k.str) bound w.rest),
      )

  both_on :
      (k : Scan) (c : ℕ) (s : List ℕ) (x : ℕ) (p : List ℕ)
      → k.s ≡ c ∷ s
      → k.p ≡ x ∷ p
      → IsWithin bound k
      → IsWithin bound (record k { s = s; p = p })
        × (measure bound (record k { s = s; p = p }) < measure bound k)
  unfolding measure
  both_on k c s x p e f w =
      let rest : suc (length s) ≡ length k.s = ground arith in
      let ahead : suc (length p) ≡ length k.p = ground arith in
      (record { rest = omega arith; saved = w.saved; ahead = omega arith }, omega arith)

  scan-Nearer : (k : Scan) → IsWithin bound k → Nearer bound (measure bound k) (scan tolower k)
  unfolding scan scan_rest compare_chars
  scan-Nearer k w = rest k.s k.p refl refl
    where
      rest :
          (s p : List ℕ)
          → k.s ≡ s
          → k.p ≡ p
          → Nearer bound (measure bound k) (scan_rest tolower k s p)
      rest [] p e f = tt
      rest (c ∷ s) [] e f = mismatch-Nearer k c s e w
      rest (c ∷ s) (x ∷ p) e f = elim (Bool-cases (x == question)) [
        | inl q ↦ rw q (both_on k c s x p e f w)
        | inr q ↦ elim (Bool-cases (x == asterisk)) [
          | inl a ↦ rw (q, a) (star_met-Nearer k x p f w)
          | inr a ↦ elim (Bool-cases (tolower c == tolower x)) [
            | inl same ↦ rw (q, a, same) (both_on k c s x p e f w)
            | inr other ↦ rw (q, a, other) (mismatch-Nearer k c s e w)
          ]
        ]
      ]

  follow :
      {m : ℕ} (n : ℕ) (next : Next)
      → Nearer bound m next
      → ((k : Scan)
          → IsWithin bound k
          → measure bound k < m
          → (b : Bool) × (scan_all tolower n k ≡ some b))
      → (b : Bool) × ((elim next [ done b ↦ some b | again k ↦ scan_all tolower n k ]) ≡ some b)
  follow n (done b) near ih = (b, refl)
  follow n (again k) near ih = ih k near.0 near.1

  scan_all_ends :
      (n : ℕ) (k : Scan)
      → IsWithin bound k
      → measure bound k < n
      → (b : Bool) × (scan_all tolower n k ≡ some b)
  unfolding scan_all
  scan_all_ends zero k w h = absurd (omega arith)
  scan_all_ends (suc n) k w h =
      follow n (scan tolower k) (scan-Nearer k w)
        (λ k' w' nearer. scan_all_ends n k' w' (omega arith))

-- The loop ends with an answer on every name and every pattern: the fuel of the model is enough.
pub match_pattern_ends :
    (tolower : ℕ → ℕ) (str pattern : List ℕ)
    → (b : Bool) × (match_pattern tolower str pattern ≡ some b)
unfolding match_pattern enough begin measure
match_pattern_ends tolower str pattern =
    scan_all_ends tolower (length str + length pattern) (enough tolower str pattern)
      (begin tolower str pattern)
      (record { rest = omega arith; saved = omega arith; ahead = omega arith }) (omega arith)
