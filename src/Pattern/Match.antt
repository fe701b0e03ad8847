-- ===== src/Pattern/Match.antt =====
-- What it means for a name to match a pattern, and that match_pattern of misc.c claims no more.
use cifsd.Base.{
  ℕ, zero, suc, ◌≡◌, refl, sym, ◌⊎◌, inl, inr, true, false, some, List, [], ◌∷◌, ◌==◌, Bool-cases,
  arith,
}
use cifsd.Pattern.{
  question, asterisk, Scan, Next, done, again, tail, at_end, mismatch, star_met, compare_chars,
  scan_rest, scan, scan_all, begin, match_pattern,
}

-- `?` stands for one character, `*` for any number of them, every other for itself in either case.
pub data Matches (tolower : ℕ → ℕ) : List ℕ → List ℕ → Type 0 where
  ends : Matches tolower [] []
  any_char :
      {c x : ℕ} {p s : List ℕ}
      → x ≡ question
      → Matches tolower p s
      → Matches tolower (x ∷ p) (c ∷ s)
  same_char :
      {c x : ℕ} {p s : List ℕ}
      → tolower c ≡ tolower x
      → Matches tolower p s
      → Matches tolower (x ∷ p) (c ∷ s)
  star_none :
      {x : ℕ} {p s : List ℕ} → x ≡ asterisk → Matches tolower p s → Matches tolower (x ∷ p) s
  star_more :
      {c x : ℕ} {p s : List ℕ}
      → x ≡ asterisk
      → Matches tolower (x ∷ p) s
      → Matches tolower (x ∷ p) (c ∷ s)

-- The pattern matches the string from here or from somewhere behind.
data Later (tolower : ℕ → ℕ) (p : List ℕ) : List ℕ → Type 0 where
  here : {s : List ℕ} → Matches tolower p s → Later tolower p s
  behind : {c : ℕ} {s : List ℕ} → Later tolower p s → Later tolower p (c ∷ s)

module _ (tolower : ℕ → ℕ) where
  star-Later : (x : ℕ) (p s : List ℕ) → x ≡ asterisk → Later tolower p s → Matches tolower (x ∷ p) s
  star-Later x p s e (here m) = star_none e m
  star-Later x p _ e (behind l) = star_more e (star-Later x p _ e l)

  star_all : (x : ℕ) (s : List ℕ) → x ≡ asterisk → Matches tolower (x ∷ []) s
  star_all x [] e = star_none e ends
  star_all x (c ∷ s) e = star_more e (star_all x s e)

  Later-tail : (p xs : List ℕ) → Later tolower p (tail xs) → Later tolower p xs
  unfolding tail
  Later-tail p [] l = l
  Later-tail p (x ∷ xs) l = behind l

  at_end-Matches : (p : List ℕ) → at_end p ≡ true → Matches tolower p []
  unfolding at_end
  at_end-Matches [] e = ends
  at_end-Matches (x ∷ []) e = star_none (ground arith) ends
  at_end-Matches (x ∷ (y ∷ p)) e = absurd (ground arith)

  -- What an answer of `true` from a state means.
  abbrev Goal : Scan → List ℕ → List ℕ → Type 0
  Goal k s p = Matches tolower p s ⊎ ((k.star ≡ true) × Later tolower k.pattern k.str)

  abbrev Leads : Type 0 → Next → Type 0
  Leads G (done b) = b ≡ true → G
  Leads G (again k) = Goal k k.s k.p → G

  abbrev pub back : Scan → Scan
  back k = record k { s = tail k.str; p = k.pattern; str = tail k.str }

  back-Goal :
      (k : Scan) (s p : List ℕ) → k.star ≡ true → Goal (back k) (tail k.str) k.pattern → Goal k s p
  back-Goal k s p e (inl m) = inr (e, Later-tail k.pattern k.str (here m))
  back-Goal k s p e (inr (_, l)) = inr (e, Later-tail k.pattern k.str l)

  pub mismatch_starred : (k : Scan) → k.star ≡ true → mismatch k ≡ again (back k)
  unfolding mismatch
  mismatch_starred k e = ground arith

  pub mismatch_plain : (k : Scan) → k.star ≡ false → mismatch k ≡ done false
  unfolding mismatch
  mismatch_plain k e = ground arith

  mismatch-Leads : (k : Scan) (s p : List ℕ) → Leads (Goal k s p) (mismatch k)
  mismatch-Leads k s p = elim (Bool-cases k.star) [
    | inl e ↦ rw (mismatch_starred k e) (back-Goal k s p e)
    | inr e ↦ rw (mismatch_plain k e) (λ h. absurd (ground arith))
  ]

  star_met-Leads :
      (k : Scan) (x : ℕ) (p : List ℕ) → x ≡ asterisk → Leads (Goal k k.s (x ∷ p)) (star_met k p)
  unfolding star_met
  star_met-Leads k x [] e = λ _. inl (star_all x k.s e)
  star_met-Leads k x (y ∷ p) e = λ g. inl (star-Later x (y ∷ p) k.s e (later g))
    where
      later :
          Matches tolower (y ∷ p) k.s ⊎ ((true ≡ true) × Later tolower (y ∷ p) k.s)
          → Later tolower (y ∷ p) k.s
      later (inl m) = here m
      later (inr (_, l)) = l

  step-Goal :
      (k : Scan) (c : ℕ) (s : List ℕ) (x : ℕ) (p : List ℕ)
      → (Matches tolower p s → Matches tolower (x ∷ p) (c ∷ s))
      → Goal (record k { s = s; p = p }) s p
      → Goal k (c ∷ s) (x ∷ p)
  step-Goal k c s x p m (inl now) = inl (m now)
  step-Goal k c s x p m (inr other) = inr other

  compare_chars-Leads :
      (k : Scan) (c : ℕ) (s : List ℕ) (x : ℕ) (p : List ℕ)
      → k.s ≡ c ∷ s
      → Leads (Goal k (c ∷ s) (x ∷ p)) (compare_chars tolower k c s x p)
  unfolding compare_chars star_met
  compare_chars-Leads k c s x p h = elim (Bool-cases (x == question)) [
    | inl q ↦ rw q (step-Goal k c s x p (any_char (ground arith)))
    | inr q ↦ elim (Bool-cases (x == asterisk)) [
      | inl a ↦ rw (q, a, sym h) (star_met-Leads k x p (ground arith))
      | inr a ↦ elim (Bool-cases (tolower c == tolower x)) [
        | inl e ↦ rw (q, a, e) (step-Goal k c s x p (same_char (ground arith)))
        | inr e ↦ rw (q, a, e) (mismatch-Leads k (c ∷ s) (x ∷ p))
      ]
    ]
  ]

  scan-Leads : (k : Scan) → Leads (Goal k k.s k.p) (scan tolower k)
  unfolding scan scan_rest
  scan-Leads k = rest k k.s k.p refl
    where
      rest : (k : Scan) (s p : List ℕ) → k.s ≡ s → Leads (Goal k s p) (scan_rest tolower k s p)
      rest k [] p e = λ h. inl (at_end-Matches p h)
      rest k (c ∷ s) [] e = mismatch-Leads k (c ∷ s) []
      rest k (c ∷ s) (x ∷ p) e = compare_chars-Leads k c s x p e

  follow :
      (n : ℕ) (G : Type 0) (next : Next)
      → ((k : Scan) → scan_all tolower n k ≡ some true → Goal k k.s k.p)
      → Leads G next
      → (elim next [ done b ↦ some b | again k ↦ scan_all tolower n k ]) ≡ some true
      → G
  follow n G (done b) ih l e = l (ground arith)
  follow n G (again k) ih l e = l (ih k e)

  scan_all_sound : (n : ℕ) (k : Scan) → scan_all tolower n k ≡ some true → Goal k k.s k.p
  unfolding scan_all
  scan_all_sound zero k e = absurd (ground arith)
  scan_all_sound (suc n) k e =
      follow n (Goal k k.s k.p) (scan tolower k) (scan_all_sound n) (scan-Leads k) e

  -- A name for which match_pattern answers true matches the pattern.
  pub match_pattern_sound :
      (str pattern : List ℕ)
      → match_pattern tolower str pattern ≡ some true
      → Matches tolower pattern str
  unfolding match_pattern begin
  match_pattern_sound str pattern e = from_start (scan_all_sound _ (begin tolower str pattern) e)
    where
      from_start : Goal (begin tolower str pattern) str pattern → Matches tolower pattern str
      from_start (inl m) = m
      from_start (inr (starred, _)) = absurd (ground arith)
