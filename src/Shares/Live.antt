-- ===== src/Shares/Live.antt =====
-- The references that mgmt/share_config.c counts.
use cifsd.Base.{
  ℕ, ◌+◌, ◌-◌, ◌≡◌, ◌≤◌, ◌<◌, ◌⊎◌, ap, inl, inr, refl, Bool, true, false, Option, none, some, List,
  [], ◌∷◌, map, ◌==◌, All, arith, not, ◌&&◌, if◌then◌else◌, if_elim, sub32, Bool-cases,
}
use cifsd.Shares.{
  Share, Table, set, same_name, share_lookup, get_share_config, unlink, cifsd_share_config_put,
  Answer, lookup_and_get, keep_or_add, keep_or_request, add_share, share_config_request,
  cifsd_share_config_get,
}

-- A share in the table is held by someone.
unfoldable pub IsHeld : Table → Share → Type 0
IsHeld t s = (1 ≤ t.refcount s.ptr) × (s.ptr < t.next)

-- Every share in the table is held, no pointer is held that was not given out, and the counts are
-- within an `int`.
pub record IsLive (t : Table) : Type 0 where
  pub held : All (IsHeld t) t.shares
  pub unborn : (p : ℕ) → t.next ≤ p → t.refcount p ≡ 0

-- The counts of `t'` are those of `t` with one more on `p`.
unfoldable pub Adds : Table → ℕ → Table → Type 0
Adds t p t' = (x : ℕ) → t'.refcount x ≡ t.refcount x + (if x == p then 1 else 0)

-- A share with this pointer has the name.
abbrev pub HasName : List ℕ → ℕ → List Share → Type 0
HasName name p [] = ⊥
HasName name p (s ∷ shares) = ((s.ptr ≡ p) × (s.name ≡ name)) ⊎ HasName name p shares

-- What a request for a share does: it gives one reference more on the share that it returns, which has
-- the name, or none.
pub data IsGot (name : List ℕ) (t : Table) : Option ℕ × Table → Type 0 where
  got :
      {p : ℕ} {t' : Table}
      → Adds t p t'
      → IsLive t'
      → 1 ≤ t'.refcount p
      → HasName name p t'.shares
      → IsGot name t (some p, t')
  refused : IsGot name t (none, t)

same_name-equal : (a b : List ℕ) → same_name a b ≡ true → b ≡ a
unfolding same_name
same_name-equal [] [] e = refl
same_name-equal [] (b ∷ bs) e = absurd (ground arith)
same_name-equal (a ∷ rest) [] e = absurd (ground arith)
same_name-equal (a ∷ rest) (b ∷ bs) e = ground (arith, same_name-equal rest bs)

lookup-HasName :
    (name : List ℕ) (shares : List Share) (s : Share)
    → share_lookup name shares ≡ some s
    → HasName name s.ptr shares
unfolding share_lookup
lookup-HasName name [] s e = absurd (ground arith)
lookup-HasName name (s' ∷ shares) s e = elim (Bool-cases (same_name name s'.name)) [
  | inl h ↦
      let same : s' ≡ s = ground arith in inl (ap (λ x. x.ptr) same, same_name-equal name s'.name h)
  | inr h ↦ inr (lookup-HasName name shares s (ground arith))
]

lookup-IsHeld :
    (t : Table) (name : List ℕ) (shares : List Share) (s : Share)
    → All (IsHeld t) shares
    → share_lookup name shares ≡ some s
    → IsHeld t s
unfolding share_lookup
lookup-IsHeld t name [] s h e = absurd (ground arith)
lookup-IsHeld t name (s' ∷ shares) s (h, hs) e =
    choose (same_name name s'.name) e (lookup-IsHeld t name shares s hs)
  where
    choose :
        (c : Bool)
        → (if c then some s' else share_lookup name shares) ≡ some s
        → (share_lookup name shares ≡ some s → IsHeld t s)
        → IsHeld t s
    choose true e rest = let same : s' ≡ s = ground arith in rw⁻¹ same h
    choose false e rest = rest e

Adds-IsHeld :
    (t t' : Table) (p : ℕ) (shares : List Share)
    → Adds t p t'
    → t.next ≤ t'.next
    → All (IsHeld t) shares
    → All (IsHeld t') shares
unfolding Adds IsHeld
Adds-IsHeld t t' p [] a n h = tt
Adds-IsHeld t t' p (s ∷ shares) a n (h, hs) =
    ((ground (arith, a s.ptr), omega (arith, h.1)), Adds-IsHeld t t' p shares a n hs)

more : Share → Table → Table
more s t = record t { refcount = set t.refcount s.ptr (t.refcount s.ptr + 1) }

more-IsLive : (s : Share) (t : Table) → IsLive t → IsHeld t s → IsLive (more s t)
unfolding more IsHeld Adds
more-IsLive s t l h = record {
  held = Adds-IsHeld t (more s t) s.ptr t.shares (λ x. ground arith) (omega arith) l.held;
  unborn = λ p b. ground (arith, l.unborn p b);
}

get_share_config-IsGot :
    (name : List ℕ) (s : Share) (t : Table)
    → IsLive t
    → IsHeld t s
    → HasName name s.ptr t.shares
    → IsGot name t (get_share_config s t)
unfolding get_share_config IsHeld Adds more
get_share_config-IsGot name s t l h m =
    rw (counted (t.refcount s.ptr) h.0)
      (got {p = s.ptr} {t' = more s t} (λ x. ground arith) (more-IsLive s t l h) (ground arith) m)
  where
    counted : (n : ℕ) → 1 ≤ n → (n == 0) ≡ false
    counted n h = ground arith

lookup_and_get-IsGot : (name : List ℕ) (t : Table) → IsLive t → IsGot name t (lookup_and_get name t)
unfolding lookup_and_get
lookup_and_get-IsGot name t l = found (share_lookup name t.shares) refl
  where
    found :
        (o : Option Share)
        → share_lookup name t.shares ≡ o
        → IsGot name t (elim o [ none ↦ (none, t) | some s ↦ get_share_config s t ])
    found none e = refused
    found (some s) e =
        get_share_config-IsGot name s t l (lookup-IsHeld t name t.shares s l.held e)
          (lookup-HasName name t.shares s e)

keep_or_add-IsGot :
    (name : List ℕ) (pipe : Bool) (t : Table) (r : Option ℕ × Table)
    → IsLive t
    → IsGot name t r
    → IsGot name t (keep_or_add name pipe r)
unfolding keep_or_add IsHeld Adds
keep_or_add-IsGot name pipe t _ l (got a l' c m) = got a l' c m
keep_or_add-IsGot name pipe t _ l refused =
    let t' = (keep_or_add name pipe (none, t)).1 in
    let adds : Adds t t.next t' = λ x. ground (arith, l.unborn t.next) in
    got adds
      (record {
        held = (
          (ground arith, omega arith),
          Adds-IsHeld t t' t.next t.shares adds (omega arith) l.held,
        );
        unborn = λ p b. ground (arith, l.unborn p);
      })
      (ground arith) (inl (refl, refl))

request-IsGot :
    (memory : Bool) (answer : Option Answer) (name : List ℕ) (t : Table)
    → IsLive t
    → IsGot name t (share_config_request memory answer name t)
unfolding share_config_request add_share
request-IsGot memory none name t l = refused
request-IsGot memory (some a) name t l = if_elim (IsGot name t) a.invalid refused (
    if_elim (IsGot name t) (not memory) refused (
      if_elim (IsGot name t) (not a.pipe && not a.loads) refused (
        keep_or_add-IsGot name a.pipe t (lookup_and_get name t) l (lookup_and_get-IsGot name t l))))

keep_or_request-IsGot :
    (memory : Bool) (answer : Option Answer) (name : List ℕ) (t : Table) (r : Option ℕ × Table)
    → IsLive t
    → IsGot name t r
    → IsGot name t (keep_or_request memory answer name r)
unfolding keep_or_request
keep_or_request-IsGot memory answer name t _ l (got a l' c m) = got a l' c m
keep_or_request-IsGot memory answer name t _ l refused = request-IsGot memory answer name t l

-- A request for a share leaves every count as it is, or returns a share with the name, in small
-- letters, and adds one to its count only;
-- the shares in the table stay held, whatever the daemon answers.
pub share_config_get-IsGot :
    (tolower : ℕ → ℕ) (memory : Bool) (answer : Option Answer) (name : List ℕ) (t : Table)
    → IsLive t
    → IsGot (map tolower name) t (cifsd_share_config_get tolower memory answer name t)
unfolding cifsd_share_config_get
share_config_get-IsGot tolower memory answer name t l =
    keep_or_request-IsGot memory answer (map tolower name) t (lookup_and_get (map tolower name) t) l
      (lookup_and_get-IsGot (map tolower name) t l)

-- The counts of `t'` are those of `t` with one less on `p`.
unfoldable pub Drops : Table → ℕ → Table → Type 0
Drops t p t' = (x : ℕ) → t'.refcount x ≡ t.refcount x - (if x == p then 1 else 0)

Drops-IsHeld :
    (t t' : Table) (p : ℕ) (shares : List Share)
    → Drops t p t'
    → t.next ≡ t'.next
    → 1 ≤ t'.refcount p
    → All (IsHeld t) shares
    → All (IsHeld t') shares
unfolding Drops IsHeld
Drops-IsHeld t t' p [] d n o h = tt
Drops-IsHeld t t' p (s ∷ shares) d n o (h, hs) =
    ((ground (arith, d s.ptr), omega (arith, h.1)), Drops-IsHeld t t' p shares d n o hs)

unlink-IsHeld :
    (t t' : Table) (p : ℕ) (shares : List Share)
    → Drops t p t'
    → t.next ≡ t'.next
    → All (IsHeld t) shares
    → All (IsHeld t') (unlink p shares)
unfolding unlink Drops IsHeld
unlink-IsHeld t t' p [] d n h = tt
unlink-IsHeld t t' p (s ∷ shares) d n (h, hs) =
    let r = unlink-IsHeld t t' p shares d n hs in
    elim (Bool-cases (s.ptr == p)) [
      | inl e ↦ rw e r
      | inr e ↦ rw e ((ground (arith, d s.ptr, h.0), omega (arith, h.1)), r)
    ]

fewer : ℕ → Table → Table
fewer p t = record t { refcount = set t.refcount p (sub32 (t.refcount p) 1) }

-- The table once the last reference is gone.
last_gone : ℕ → Table → Table
unfolding fewer
last_gone p t = record (fewer p t) { shares = unlink p t.shares }

put_kept :
    (p : ℕ) (t : Table)
    → (sub32 (t.refcount p) 1 == 0) ≡ false
    → cifsd_share_config_put p t ≡ fewer p t
unfolding cifsd_share_config_put fewer
put_kept p t e = ground arith

put_last :
    (p : ℕ) (t : Table)
    → (sub32 (t.refcount p) 1 == 0) ≡ true
    → cifsd_share_config_put p t ≡ last_gone p t
unfolding cifsd_share_config_put last_gone fewer
put_last p t e = ground arith

put-Drops :
    (p : ℕ) (t : Table)
    → 1 ≤ t.refcount p
    → t.refcount p < 4294967296
    → Drops t p (fewer p t) × Drops t p (last_gone p t)
unfolding Drops fewer last_gone
put-Drops p t o b = (λ x. ground arith, λ x. ground arith)

-- Giving a reference back takes one from the count of that share only; a share that nobody holds any
-- more leaves the table.
pub put-IsLive :
    (p : ℕ) (t : Table)
    → IsLive t
    → 1 ≤ t.refcount p
    → t.refcount p < 4294967296
    → Drops t p (cifsd_share_config_put p t) × IsLive (cifsd_share_config_put p t)
unfolding fewer last_gone
put-IsLive p t l o b =
    let d = put-Drops p t o b in
    elim (Bool-cases (sub32 (t.refcount p) 1 == 0)) [
      | inl e ↦ rw (put_last p t e) (
        d.1,
        record {
          held = unlink-IsHeld t (last_gone p t) p t.shares d.1 refl l.held;
          unborn = λ x h. ground (arith, l.unborn x h);
        },
      )
      | inr e ↦ rw (put_kept p t e) (
        d.0,
        record {
          held = Drops-IsHeld t (fewer p t) p t.shares d.0 refl (ground arith) l.held;
          unborn = λ x h. ground (arith, l.unborn x h);
        },
      )
    ]
