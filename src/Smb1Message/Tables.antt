-- ===== src/Smb1Message/Tables.antt =====
-- The words and the bytes that each command of SMB1 has, as tables, and that the `switch`es of smb1misc.c
-- agree with them.
use cifsd.Base.{
  Bool-cases, inl, inr, ℕ, ◌+◌, ◌≡◌, ◌↔◌, Bool, true, false, ◌&&◌, ◌||◌, List, [], ◌∷◌, leb, ◌==◌,
  ◌∙◌, ap, arith, if◌then◌else◌,
}
use cifsd.Smb1Message.{count, one_of, checked_count, words_of, bytes_of}

-- The number of words of each command that has one number only.
abbrev pub word_counts : List (ℕ × ℕ)
word_counts =
    (0x00, 0)
    ∷ (0x01, 0)
    ∷ (0x04, 3)
    ∷ (0x05, 1)
    ∷ (0x06, 1)
    ∷ (0x07, 1)
    ∷ (0x08, 0)
    ∷ (0x09, 8)
    ∷ (0x0b, 5)
    ∷ (0x10, 0)
    ∷ (0x11, 0)
    ∷ (0x24, 8)
    ∷ (0x2b, 1)
    ∷ (0x2d, 15)
    ∷ (0x32, 15)
    ∷ (0x34, 1)
    ∷ (0x71, 0)
    ∷ (0x72, 0)
    ∷ (0x73, 12)
    ∷ (0x74, 2)
    ∷ (0x75, 4)
    ∷ (0xa2, 24)
    ∷ (0xa4, 0)
    ∷ (0xa5, 4)
    ∷ []

abbrev has_listed : ℕ → ℕ → List (ℕ × ℕ) → Bool
has_listed c n [] = false
has_listed c n ((d, m) ∷ rest) = if c == d then n == m else has_listed c n rest

-- TRANSACTION (0x25) has any number from 14 on, READ_ANDX (0x2e) 10 or 12, and WRITE_ANDX (0x2f) 12 or 14.
abbrev pub has_words : ℕ → ℕ → Bool
has_words c wc =
    if c == 0x25
    then leb 14 wc
    else if c == 0x2e
    then wc == 10 || wc == 12
    else if c == 0x2f
    then wc == 12 || wc == 14
    else has_listed c wc word_counts

-- The least number of bytes of each command that has one; NT_CREATE_ANDX (0xa2) has one more in Unicode.
abbrev pub least_counts : List (ℕ × ℕ)
least_counts =
    (0x00, 2)
    ∷ (0x01, 2)
    ∷ (0x06, 2)
    ∷ (0x07, 2)
    ∷ (0x08, 2)
    ∷ (0x09, 2)
    ∷ (0x0b, 3)
    ∷ (0x10, 2)
    ∷ (0x2d, 2)
    ∷ (0x2f, 1)
    ∷ (0x72, 2)
    ∷ (0x75, 3)
    ∷ (0xa2, 2)
    ∷ (0xa5, 4)
    ∷ []

abbrev least : ℕ → List (ℕ × ℕ) → ℕ
least c [] = 0
least c ((d, n) ∷ rest) = if c == d then n else least c rest

-- The commands that have no bytes.
abbrev pub byteless : List ℕ
byteless = 0x04 ∷ 0x05 ∷ 0x11 ∷ 0x2e ∷ 0x34 ∷ 0x71 ∷ 0x74 ∷ 0xa4 ∷ []

abbrev among : ℕ → List ℕ → Bool
among c [] = false
among c (d ∷ ds) = c == d || among c ds

abbrev pub has_count : ℕ → Bool → ℕ → Bool
has_count c unicode bc =
    if among c byteless
    then bc == 0
    else leb (least c least_counts + (if unicode && c == 0xa2 then 1 else 0)) bc

-- The labels of the cases that ask for one number of words.
zero_words : List ℕ
zero_words = 0x00 ∷ 0x01 ∷ 0x08 ∷ 0x71 ∷ 0x72 ∷ 0xa4 ∷ 0x10 ∷ 0x11 ∷ []

one_word : List ℕ
one_word = 0x05 ∷ 0x06 ∷ 0x07 ∷ 0x2b ∷ 0x34 ∷ []

counted_zero :
    (c n : ℕ) → one_of c zero_words ≡ true → words_of c n ≡ count n → has_words c n ≡ true
unfolding words_of one_of checked_count zero_words
counted_zero c n z e = ground arith

has_one : (c : ℕ) → one_of c one_word ≡ true → has_words c 1 ≡ true
unfolding one_of one_word
has_one c o = ground arith

counted_is_one :
    (c n : ℕ)
    → one_of c zero_words ≡ false
    → one_of c one_word ≡ true
    → words_of c n ≡ count n
    → n ≡ 1
unfolding words_of checked_count zero_words one_word
counted_is_one c n z o e = ground (arith, z, o, e)

counted_one :
    (c n : ℕ)
    → one_of c zero_words ≡ false
    → one_of c one_word ≡ true
    → words_of c n ≡ count n
    → has_words c n ≡ true
unfolding words_of checked_count zero_words one_word
counted_one c n z o e =
    let one : n ≡ 1 = counted_is_one c n z o e in
    let w : has_words c 1 ≡ true = has_one c o in ap (has_words c) one ∙ w

counted : (c n : ℕ) → words_of c n ≡ count n → has_words c n ≡ true
unfolding words_of one_of checked_count zero_words one_word
counted c n e = elim (Bool-cases (one_of c zero_words)) [
  | inl z ↦ counted_zero c n z e
  | inr z ↦ elim (Bool-cases (one_of c one_word)) [
    | inl o ↦ counted_one c n z o e
    | inr o ↦ ground arith
  ]
]

pub words_iff : (c n : ℕ) → (words_of c n ≡ count n) ↔ (has_words c n ≡ true)
unfolding words_of one_of checked_count
words_iff c n = (counted c n, λ e. ground arith)

pub bytes_iff : (c : ℕ) (u : Bool) (n : ℕ) → (bytes_of c u n ≡ count n) ↔ (has_count c u n ≡ true)
unfolding bytes_of one_of checked_count
bytes_iff c true n = (λ e. ground arith, λ e. ground arith)
bytes_iff c false n = (λ e. ground arith, λ e. ground arith)
