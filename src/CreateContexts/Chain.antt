-- ===== src/CreateContexts/Chain.antt =====
-- The walk over the create contexts of a request, smb2_find_context_vals of smb2pdu.c, against the list
-- of the offsets at which the contexts stand.
use cifsd.Base.{
  ℕ, zero, suc, ◌+◌, ◌≡◌, ◌≢◌, ◌≤◌, ◌<◌, inl, inr, refl, ap, true, false, List, [], ◌∷◌, ◌++◌,
  length, All, Bool-cases, ltb, ◌==◌, arith,
}
use cifsd.Wire.{Buffer}
use cifsd.CreateContexts.{
  Search, found, absent, bad_name, unfinished, next_context, context_name_length, is_string,
  context_name, find_context,
}

-- The contexts from an offset on, linked by their Next fields; the last one has 0 there.
pub data Chain (b : Buffer) : ℕ → List ℕ → Type 0 where
  last : {at : ℕ} → next_context b at ≡ 0 → Chain b at (at ∷ [])
  link :
      {at : ℕ} {offsets : List ℕ}
      → next_context b at ≢ 0
      → Chain b (at + next_context b at) offsets
      → Chain b at (at ∷ offsets)

-- A context that a search goes past: its name is long enough and is another one.
pub record IsOther (b : Buffer) (s : List ℕ) (at : ℕ) : Type 0 where
  pub long : 4 ≤ context_name_length b at
  pub differs : is_string b (context_name b at) s ≡ false

-- The first context of a list that is not another one.
pub record IsFirst (b : Buffer) (s : List ℕ) (offsets : List ℕ) (at : ℕ) : Type 0 where
  pub before : List ℕ
  pub after : List ℕ
  pub parts : offsets ≡ before ++ (at ∷ after)
  pub others : All (IsOther b s) before

-- What a search among contexts answers: the first one that is not another one has the name, or its name
-- is too short; or all are others.
abbrev pub IsAnswer : Buffer → List ℕ → List ℕ → Search → Type 0
IsAnswer b s offsets (found at) =
    IsFirst b s offsets at
    × (4 ≤ context_name_length b at)
    × (is_string b (context_name b at) s ≡ true)
IsAnswer b s offsets bad_name = (at : ℕ) × IsFirst b s offsets at × (context_name_length b at < 4)
IsAnswer b s offsets absent = All (IsOther b s) offsets
IsAnswer b s offsets unfinished = ⊥

further :
    (b : Buffer) (s offsets : List ℕ) (at first : ℕ)
    → IsOther b s first
    → IsFirst b s offsets at
    → IsFirst b s (first ∷ offsets) at
further b s offsets at first o f = record {
  before = first ∷ f.before;
  after = f.after;
  parts = ap (λ l. first ∷ l) f.parts;
  others = (o, f.others);
}

past :
    (b : Buffer) (s offsets : List ℕ) (first : ℕ) (r : Search)
    → IsOther b s first
    → IsAnswer b s offsets r
    → IsAnswer b s (first ∷ offsets) r
past b s offsets first (found at) o (f, l, n) = (further b s offsets at first o f, l, n)
past b s offsets first absent o a = (o, a)
past b s offsets first bad_name o (at, f, l) = (at, further b s offsets at first o f, l)
past b s offsets first unfinished o a = a

at_once : (b : Buffer) (s offsets : List ℕ) (at : ℕ) → IsFirst b s (at ∷ offsets) at
at_once b s offsets at = record { before = []; after = offsets; parts = refl; others = tt }

module _ (fuel : ℕ) (b : Buffer) (s : List ℕ) (at : ℕ) where
  find-short : ltb (context_name_length b at) 4 ≡ true → find_context (suc fuel) b s at ≡ bad_name
  unfolding find_context
  find-short h = rw h refl

  find-found :
      ltb (context_name_length b at) 4 ≡ false
      → is_string b (context_name b at) s ≡ true
      → find_context (suc fuel) b s at ≡ found at
  unfolding find_context
  find-found h n = rw (h, n) refl

  find-absent :
      ltb (context_name_length b at) 4 ≡ false
      → is_string b (context_name b at) s ≡ false
      → next_context b at ≡ 0
      → find_context (suc fuel) b s at ≡ absent
  unfolding find_context
  find-absent h n e = rw (h, n, e) refl

  find-onward :
      ltb (context_name_length b at) 4 ≡ false
      → is_string b (context_name b at) s ≡ false
      → next_context b at ≢ 0
      → find_context (suc fuel) b s at ≡ find_context fuel b s (at + next_context b at)
  unfolding find_context
  find-onward h n e = let e' : (next_context b at == 0) ≡ false = ground arith in rw (h, n, e') refl

  -- One turn of the loop, with what the contexts behind this one answer.
  turn-IsAnswer :
      (offsets : List ℕ)
      → (IsOther b s at → IsAnswer b s (at ∷ offsets) (find_context (suc fuel) b s at))
      → IsAnswer b s (at ∷ offsets) (find_context (suc fuel) b s at)
  turn-IsAnswer offsets k = elim (Bool-cases (ltb (context_name_length b at) 4)) [
    | inl h ↦ rw (find-short h) (at, at_once b s offsets at, ground arith)
    | inr h ↦ elim (Bool-cases (is_string b (context_name b at) s)) [
      | inl n ↦ rw (find-found h n) (at_once b s offsets at, ground arith, n)
      | inr n ↦ k (record { long = ground arith; differs = n })
    ]
  ]

-- Over contexts that are linked from an offset on, the walk of smb2_find_context_vals ends within as
-- many turns as there are contexts, and answers with the first of them whose name is shorter than 4 or
-- is the one looked for: that it is too short, or where it is; or, if there is none, that the name is
-- absent.
pub find_context-IsAnswer :
    (n : ℕ) (b : Buffer) (s : List ℕ) (at : ℕ) (offsets : List ℕ)
    → Chain b at offsets
    → length offsets ≤ n
    → IsAnswer b s offsets (find_context n b s at)
find_context-IsAnswer zero b s at _ (last e) h = absurd (omega arith)
find_context-IsAnswer zero b s at _ (link e c) h = absurd (omega arith)
find_context-IsAnswer (suc n) b s at _ (last e) h =
    turn-IsAnswer n b s at []
      λ o. rw (find-absent n b s at (ground (arith, o.long)) o.differs e) (o, tt)
find_context-IsAnswer (suc n) b s at _ (link {offsets = offsets} e c) h =
    turn-IsAnswer n b s at offsets λ o.
      rw (find-onward n b s at (ground (arith, o.long)) o.differs e) (
        past b s offsets at _ o
          (find_context-IsAnswer n b s (at + next_context b at) offsets c (omega arith)))
