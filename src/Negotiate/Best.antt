-- ===== src/Negotiate/Best.antt =====
-- Which dialect cifsd_lookup_dialect_by_id of smb_common.c chooses.
use mathlib.Core.Path.{subst}
use cifsd.Base.{
  ℕ, ◌≡◌, ◌≤◌, ◌⊎◌, refl, inl, inr, Bool, true, false, List, [], ◌∷◌, All, arith, Bool-cases,
}
use cifsd.Negotiate.{
  bad_prot_id, Protocol, smb_protos, Limits, supported_protocol, dialect_found, first_found,
  cifsd_lookup_dialect_by_id,
}

-- The client offers the dialect.
pub data Offered (id : ℕ) : List ℕ → Type 0 where
  first : {d : ℕ} {ds : List ℕ} → d ≡ id → Offered id (d ∷ ds)
  later : {d : ℕ} {ds : List ℕ} → Offered id ds → Offered id (d ∷ ds)

-- A protocol that both sides can speak.
pub record IsCommon (conf : Limits) (dialects : List ℕ) (proto : Protocol) : Type 0 where
  pub offered : Offered proto.prot_id dialects
  pub supported : supported_protocol conf proto.index ≡ true

found-IsCommon :
    (conf : Limits) (proto : Protocol) (dialects : List ℕ)
    → dialect_found conf proto dialects ≡ true
    → IsCommon conf dialects proto
unfolding dialect_found
found-IsCommon conf proto [] e = absurd (ground arith)
found-IsCommon conf proto (d ∷ ds) e = elim (Bool-cases (dialect_found conf proto ds)) [
  | inl h ↦
      let c = found-IsCommon conf proto ds h in
      record { offered = later c.offered; supported = c.supported }
  | inr h ↦ record { offered = first (ground arith); supported = ground arith }
]

IsCommon-found :
    (conf : Limits) (proto : Protocol) (dialects : List ℕ)
    → supported_protocol conf proto.index ≡ true
    → Offered proto.prot_id dialects
    → dialect_found conf proto dialects ≡ true
unfolding dialect_found
IsCommon-found conf proto _ s (first e) = ground arith
IsCommon-found conf proto (d ∷ ds) s (later o) = ground (arith, IsCommon-found conf proto ds s o)

-- Some protocol of a list has the id, and both sides can speak it.
abbrev pub HasCommon : Limits → List ℕ → ℕ → List Protocol → Type 0
HasCommon conf dialects id [] = ⊥
HasCommon conf dialects id (proto ∷ protos) =
    (IsCommon conf dialects proto × (proto.prot_id ≡ id)) ⊎ HasCommon conf dialects id protos

-- The id is that of a protocol that both sides can speak, and no such protocol has a greater one; or
-- there is no such protocol. The order of the protocols does not matter.
abbrev pub IsNewest : Limits → List ℕ → List Protocol → ℕ → Type 0
IsNewest conf dialects protos id =
    (HasCommon conf dialects id protos
      × All (λ p. (¬ IsCommon conf dialects p) ⊎ (p.prot_id ≤ id)) protos)
    ⊎ ((id ≡ bad_prot_id) × All (λ p. ¬ IsCommon conf dialects p) protos)

-- A later protocol has no greater id.
abbrev Descending : List Protocol → Type 0
Descending [] = Unit {0}
Descending (proto ∷ protos) = All (λ p. p.prot_id ≤ proto.prot_id) protos × Descending protos

unfound :
    (conf : Limits) (dialects : List ℕ) (proto : Protocol)
    → dialect_found conf proto dialects ≡ false
    → ¬ IsCommon conf dialects proto
unfound conf dialects proto e c =
    let h = IsCommon-found conf proto dialects c.supported c.offered in cc

lower :
    (conf : Limits) (dialects : List ℕ) (id : ℕ) (protos : List Protocol)
    → All (λ p. p.prot_id ≤ id) protos
    → All (λ p. (¬ IsCommon conf dialects p) ⊎ (p.prot_id ≤ id)) protos
lower conf dialects id [] h = tt
lower conf dialects id (proto ∷ protos) h = (inr h.0, lower conf dialects id protos h.1)

onward :
    (conf : Limits) (dialects : List ℕ) (proto : Protocol) (protos : List Protocol) (id : ℕ)
    → ¬ IsCommon conf dialects proto
    → IsNewest conf dialects protos id
    → IsNewest conf dialects (proto ∷ protos) id
onward conf dialects proto protos id n (inl (c, h)) = inl (inr c, (inl n, h))
onward conf dialects proto protos id n (inr (e, h)) = inr (e, (n, h))

first_found-here :
    (conf : Limits) (dialects : List ℕ) (proto : Protocol) (protos : List Protocol)
    → dialect_found conf proto dialects ≡ true
    → proto.prot_id ≡ first_found conf (proto ∷ protos) dialects
unfolding first_found
first_found-here conf dialects proto protos e = rw e refl

first_found-later :
    (conf : Limits) (dialects : List ℕ) (proto : Protocol) (protos : List Protocol)
    → dialect_found conf proto dialects ≡ false
    → first_found conf protos dialects ≡ first_found conf (proto ∷ protos) dialects
unfolding first_found
first_found-later conf dialects proto protos e = rw e refl

first_found-IsNewest :
    (conf : Limits) (dialects : List ℕ) (protos : List Protocol)
    → Descending protos
    → IsNewest conf dialects protos (first_found conf protos dialects)
first_found-IsNewest conf dialects [] d = inr (unfold first_found in refl, tt)
first_found-IsNewest conf dialects (proto ∷ protos) d =
    elim (Bool-cases (dialect_found conf proto dialects)) [
      | inl e ↦
          subst (IsNewest conf dialects (proto ∷ protos))
            (first_found-here conf dialects proto protos e)
            (inl (
              inl (found-IsCommon conf proto dialects e, refl),
              (inr (omega arith), lower conf dialects proto.prot_id protos d.0),
            ))
      | inr e ↦
          subst (IsNewest conf dialects (proto ∷ protos))
            (first_found-later conf dialects proto protos e)
            (onward conf dialects proto protos _ (unfound conf dialects proto e)
              (first_found-IsNewest conf dialects protos d.1))
    ]

protos-Descending : (insecure : Bool) → Descending (smb_protos insecure)
unfolding smb_protos
protos-Descending true = ground arith
protos-Descending false = ground arith

-- The dialect that is chosen is the one with the greatest id of the protocols of the server that the
-- client offers and that the configuration supports, and BAD_PROT_ID if there is none.
pub lookup_dialect-IsNewest :
    (insecure : Bool) (conf : Limits) (dialects : List ℕ)
    → IsNewest conf dialects
        (smb_protos insecure)
        (cifsd_lookup_dialect_by_id insecure conf dialects)
unfolding cifsd_lookup_dialect_by_id
lookup_dialect-IsNewest insecure conf dialects =
    first_found-IsNewest conf dialects (smb_protos insecure) (protos-Descending insecure)
