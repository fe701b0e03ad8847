-- ===== src/Sessions/Lists.antt =====
-- Lookups in a list of sessions with different ids, from which some are dropped.
use cifsd.Base.{
  ℕ, ◌≡◌, ◌≢◌, refl, Bool, true, false, ◌||◌, Option, none, some, List, [], ◌∷◌, ◌==◌,
  if◌then◌else◌, arith, All, Bool-cases, inl, inr,
}
use cifsd.Sessions.{UserSession, without_session, set_at, session_in}

abbrev pub elem : ℕ → List ℕ → Bool
elem a [] = false
elem a (b ∷ rest) = (a == b) || elem a rest

-- The ids of the sessions differ.
abbrev pub IsUnique : (ℕ → UserSession) → List ℕ → Type 0
IsUnique sess [] = Unit {0}
IsUnique sess (a ∷ rest) = All (λ b. (sess b).id ≢ (sess a).id) rest × IsUnique sess rest

-- What a lookup gives if the sessions of `gone` are not there.
abbrev pub keep : List ℕ → Option ℕ → Option ℕ
keep gone none = none
keep gone (some a) = if elem a gone then none else some a

abbrev pub drop_all : List ℕ → List ℕ → List ℕ
drop_all [] l = l
drop_all (a ∷ gone) l = drop_all gone (without_session a l)

pub session_in-set_at :
    (sess : ℕ → UserSession) (l : List ℕ) (n x : ℕ) (v : UserSession)
    → All (λ a. a ≢ n) l
    → session_in (set_at sess n v) l x ≡ session_in sess l x
unfolding session_in
session_in-set_at sess [] n x v h = refl
session_in-set_at sess (a ∷ l) n x v h = ground (arith, session_in-set_at sess l n x v h.1, h.0)

pub session_in-all :
    (sess : ℕ → UserSession) (l : List ℕ) (x a : ℕ)
    → session_in sess l x ≡ some a
    → ((sess a).id ≡ x) × (elem a l ≡ true)
unfolding session_in
session_in-all sess [] x a h = ground arith
session_in-all sess (b ∷ l) x a h = ground (arith, session_in-all sess l x a)

pub session_in-absent :
    (sess : ℕ → UserSession) (l : List ℕ) (x : ℕ)
    → All (λ a. (sess a).id ≢ x) l
    → session_in sess l x ≡ none
unfolding session_in
session_in-absent sess [] x h = refl
session_in-absent sess (a ∷ l) x h = ground (arith, session_in-absent sess l x h.1, h.0)

others_absent :
    (sess : ℕ → UserSession) (a c : ℕ) (l : List ℕ) (x : ℕ)
    → All (λ b. (sess b).id ≢ (sess c).id) l
    → x ≡ (sess c).id
    → session_in sess (without_session a l) x ≡ none
unfolding session_in without_session
others_absent sess a c [] x h e = refl
others_absent sess a c (b ∷ l) x h e = ground (arith, others_absent sess a c l x h.1 e, h.0)

pub session_in-without_session :
    (sess : ℕ → UserSession) (a : ℕ) (l : List ℕ) (x : ℕ)
    → IsUnique sess l
    → session_in sess (without_session a l) x ≡ keep (a ∷ []) (session_in sess l x)
unfolding session_in without_session
session_in-without_session sess a [] x u = refl
session_in-without_session sess a (b ∷ l) x u =
    ground (arith, session_in-without_session sess a l x u.1, others_absent sess a b l x u.0)

pub All-without_session :
    (P : ℕ → Type 0) (a : ℕ) (l : List ℕ) → All P l → All P (without_session a l)
unfolding without_session
All-without_session P a [] h = tt
All-without_session P a (b ∷ l) h = elim (Bool-cases (b == a)) [
  | inl same ↦ rw same (All-without_session P a l h.1)
  | inr other ↦ rw other (h.0, All-without_session P a l h.1)
]

pub without_session-IsUnique :
    (sess : ℕ → UserSession) (a : ℕ) (l : List ℕ)
    → IsUnique sess l
    → IsUnique sess (without_session a l)
unfolding without_session
without_session-IsUnique sess a [] u = tt
without_session-IsUnique sess a (b ∷ l) u = elim (Bool-cases (b == a)) [
  | inl same ↦ rw same (without_session-IsUnique sess a l u.1)
  | inr other ↦ rw other (All-without_session _ a l u.0, without_session-IsUnique sess a l u.1)
]
