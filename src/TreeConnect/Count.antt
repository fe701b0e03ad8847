-- ===== src/TreeConnect/Count.antt =====
-- The ids and the references that the tree connects of a session hold.
use cifsd.Base.{
  ℕ, ◌+◌, ◌≡◌, ◌≢◌, ◌∙◌, refl, sym, inl, inr, none, some, List, [], ◌∷◌, ◌==◌, All, arith,
  if◌then◌else◌, Bool-cases,
}
use cifsd.TreeConnect.{TreeConn, cifsd_tree_conn_lookup, list_del}

-- How many tree connects are to the share.
unfoldable pub uses : ℕ → List TreeConn → ℕ
uses p [] = 0
uses p (tc ∷ rest) = uses p rest + (if tc.share_conf == p then 1 else 0)

unfoldable pub IsOther : ℕ → TreeConn → Type 0
IsOther id tc = tc.id ≢ id

-- No two tree connects have the same id.
unfoldable pub IsDistinct : List TreeConn → Type 0
IsDistinct [] = Unit
IsDistinct (tc ∷ rest) = All (IsOther tc.id) rest × IsDistinct rest

lookup_here :
    (id : ℕ) (t tc : TreeConn) (rest : List TreeConn)
    → t.id ≡ id
    → cifsd_tree_conn_lookup (t ∷ rest) id ≡ some tc
    → t ≡ tc
unfolding cifsd_tree_conn_lookup
lookup_here id t tc rest h e = ground arith

lookup_later :
    (id : ℕ) (t : TreeConn) (rest : List TreeConn)
    → t.id ≢ id
    → cifsd_tree_conn_lookup (t ∷ rest) id ≡ cifsd_tree_conn_lookup rest id
unfolding cifsd_tree_conn_lookup
lookup_later id t rest h = ground arith

pub del_here :
    (id : ℕ) (t : TreeConn) (rest : List TreeConn) → t.id ≡ id → list_del id (t ∷ rest) ≡ rest
unfolding list_del
del_here id t rest h = ground arith

del_later :
    (id : ℕ) (t : TreeConn) (rest : List TreeConn)
    → t.id ≢ id
    → list_del id (t ∷ rest) ≡ t ∷ list_del id rest
unfolding list_del
del_later id t rest h = ground arith

del_none : (id : ℕ) → list_del id [] ≡ []
unfolding list_del
del_none id = refl

none_found : (id : ℕ) (tc : TreeConn) → ¬ (cifsd_tree_conn_lookup [] id ≡ some tc)
unfolding cifsd_tree_conn_lookup
none_found id tc e = ground arith

pub uses-list_del :
    (p id : ℕ) (tcs : List TreeConn) (tc : TreeConn)
    → cifsd_tree_conn_lookup tcs id ≡ some tc
    → uses p (list_del id tcs) + (if p == tc.share_conf then 1 else 0) ≡ uses p tcs
unfolding uses
uses-list_del p id [] tc e = absurd (none_found id tc e)
uses-list_del p id (t ∷ rest) tc e = elim (Bool-cases (t.id == id)) [
  | inl h ↦
      let k = del_here id t rest (ground arith) in
      let same = lookup_here id t tc rest (ground arith) e in ground (arith, k, same)
  | inr h ↦
      let k = del_later id t rest (ground arith) in
      let later = lookup_later id t rest (ground arith) in
      let r = uses-list_del p id rest tc (sym later ∙ e) in rw k (ground (arith, r))
]

pub All-list_del :
    (P : TreeConn → Type 0) (id : ℕ) (tcs : List TreeConn) → All P tcs → All P (list_del id tcs)
All-list_del P id [] h = rw (del_none id) tt
All-list_del P id (t ∷ rest) (h, hs) = elim (Bool-cases (t.id == id)) [
  | inl e ↦ let k = del_here id t rest (ground arith) in rw k hs
  | inr e ↦ let k = del_later id t rest (ground arith) in rw k (h, All-list_del P id rest hs)
]

pub list_del-IsDistinct :
    (id : ℕ) (tcs : List TreeConn) → IsDistinct tcs → IsDistinct (list_del id tcs)
unfolding IsDistinct
list_del-IsDistinct id [] h = rw (del_none id) tt
list_del-IsDistinct id (t ∷ rest) (h, hs) = elim (Bool-cases (t.id == id)) [
  | inl e ↦ let k = del_here id t rest (ground arith) in rw k hs
  | inr e ↦
      let k = del_later id t rest (ground arith) in
      rw k (All-list_del (IsOther t.id) id rest h, list_del-IsDistinct id rest hs)
]

pub lookup-none :
    (id : ℕ) (tcs : List TreeConn) → All (IsOther id) tcs → cifsd_tree_conn_lookup tcs id ≡ none
unfolding cifsd_tree_conn_lookup IsOther
lookup-none id [] h = refl
lookup-none id (t ∷ rest) (h, hs) = ground (arith, lookup-none id rest hs)

-- After a disconnect its id is not found any more, and every other one as before.
pub lookup-list_del :
    (id x : ℕ) (tcs : List TreeConn)
    → IsDistinct tcs
    → cifsd_tree_conn_lookup (list_del id tcs) x
      ≡ (if x == id then none else cifsd_tree_conn_lookup tcs x)
unfolding IsDistinct cifsd_tree_conn_lookup list_del
lookup-list_del id x [] d = ground arith
lookup-list_del id x (t ∷ rest) (h, hs) =
    let absent = lookup-none t.id rest h in ground (arith, absent, lookup-list_del id x rest hs)

pub lookup_id :
    (id : ℕ) (tcs : List TreeConn) (tc : TreeConn)
    → cifsd_tree_conn_lookup tcs id ≡ some tc
    → tc.id ≡ id
lookup_id id [] tc e = absurd (none_found id tc e)
lookup_id id (t ∷ rest) tc e = elim (Bool-cases (t.id == id)) [
  | inl k ↦ let same = lookup_here id t tc rest (ground arith) e in ground (arith, same)
  | inr k ↦ lookup_id id rest tc (sym (lookup_later id t rest (ground arith)) ∙ e)
]

-- No tree connect with the id is left after its disconnect.
pub del-IsOther :
    (id : ℕ) (tcs : List TreeConn) → IsDistinct tcs → All (IsOther id) (list_del id tcs)
unfolding IsDistinct IsOther
del-IsOther id [] d = rw (del_none id) tt
del-IsOther id (t ∷ rest) (h, hs) = elim (Bool-cases (t.id == id)) [
  | inl e ↦ let same : t.id ≡ id = ground arith in rw (del_here id t rest same) (rw same at h)
  | inr e ↦
      let other : t.id ≢ id = ground arith in
      rw (del_later id t rest other) (other, del-IsOther id rest hs)
]
