-- ===== src/Sessions/Previous.antt =====
-- The previous session, which a session setup of smb2pdu.c destroys first.
use mathlib.Core.Path.{subst}
use cifsd.Base.{
  ℕ, ◌≡◌, ◌≢◌, ◌≤◌, ◌∙◌, refl, ap, sym, true, false, Option, none, some, [], ◌∷◌, ◌==◌,
  if◌then◌else◌, Bool-cases, Option-cases, inl, inr, arith,
}
use cifsd.Ids.{Ida, IdaLaws}
use cifsd.Sessions.{
  SessionTables, session_in, cifsd_session_lookup_slowpath, cifsd_session_destroy,
  destroy_previous_session, without_previous, destroy_all,
}
use cifsd.Sessions.Lists.{keep, session_in-all, session_in-absent, session_in-without_session}
use cifsd.Sessions.View.{IsSound}
use cifsd.Sessions.Sound.{All-map, different_ids, destroy_all-IsSound}

module _ {I : Type 0} (ida : Ida I) (laws : IdaLaws ida) (s : SessionTables I)
    (v : IsSound ida s) where
  no_zero : session_in s.sess s.sessions_table 0 ≡ none
  no_zero = session_in-absent s.sess s.sessions_table 0 (
      All-map (λ b. (ida.is_taken s.session_ida (s.sess b).id ≡ true) × (1 ≤ (s.sess b).id))
        (λ b. (s.sess b).id ≢ 0) s.sessions_table (λ b h. ground (arith, h.1)) v.held)

  module _ (id a : ℕ) (found : session_in s.sess s.sessions_table id ≡ some a) where
    destroyed-IsSound : IsSound ida (cifsd_session_destroy ida a s)
    unfolding destroy_all
    destroyed-IsSound = destroy_all-IsSound ida laws s (a ∷ []) v (λ b there n. (
      different_ids s.sess s.sessions_table b a v.unique there
          (session_in-all s.sess s.sessions_table id a found).1 (λ r. n.0 (sym r)),
      tt,
    ))

    kept :
        (x : ℕ) (o : Option ℕ)
        → session_in s.sess s.sessions_table x ≡ o
        → keep (a ∷ []) o ≡ (if x == id then none else o)
    kept x none e = ground arith
    kept x (some b) e =
        let fb = session_in-all s.sess s.sessions_table x b e in
        let fa = session_in-all s.sess s.sessions_table id a found in
        elim (Bool-cases (x == id)) [
          | inl same ↦
              let p : x ≡ id = ground arith in
              let q : some b ≡ some a = sym e ∙ ap (session_in s.sess s.sessions_table) p ∙ found in
              ground (arith, q)
          | inr other ↦
              let n : b ≢ a = λ r. ground (arith, fb.0, fa.0, ap s.sess r, other) in
              ground (arith, n, other)
        ]

    destroyed_lookup :
        (x : ℕ)
        → cifsd_session_lookup_slowpath (cifsd_session_destroy ida a s) x
          ≡ (if x == id then none else cifsd_session_lookup_slowpath s x)
    unfolding cifsd_session_lookup_slowpath cifsd_session_destroy
    destroyed_lookup x =
        session_in-without_session s.sess a s.sessions_table x v.unique
        ∙ kept x (session_in s.sess s.sessions_table x) refl

  -- The lookups lose the previous session and no other.
  abbrev pub Leaves : ℕ → SessionTables I → Type 0
  Leaves previous t =
      IsSound ida t
      × ((x : ℕ)
          → cifsd_session_lookup_slowpath t x
            ≡ (if x == previous then none else cifsd_session_lookup_slowpath s x))

  unmoved : (previous : ℕ) → cifsd_session_lookup_slowpath s previous ≡ none → Leaves previous s
  unmoved previous e = (v, λ x. absent x)
    where
      absent :
          (x : ℕ)
          → cifsd_session_lookup_slowpath s x
            ≡ (if x == previous then none else cifsd_session_lookup_slowpath s x)
      absent x = elim (Bool-cases (x == previous)) [
        | inl same ↦
            let p : x ≡ previous = ground arith in
            rw same (ap (cifsd_session_lookup_slowpath s) p ∙ e)
        | inr other ↦ rw other refl
      ]

  not_there :
      (previous : ℕ)
      → cifsd_session_lookup_slowpath s previous ≡ none
      → destroy_previous_session ida previous s ≡ s
  unfolding destroy_previous_session
  not_there previous e = ap (λ o. elim o [ none ↦ s | some a ↦ cifsd_session_destroy ida a s ]) e

  there :
      (previous a : ℕ)
      → cifsd_session_lookup_slowpath s previous ≡ some a
      → destroy_previous_session ida previous s ≡ cifsd_session_destroy ida a s
  unfolding destroy_previous_session
  there previous a e = ap (λ o. elim o [ none ↦ s | some b ↦ cifsd_session_destroy ida b s ]) e

  destroyed-Leaves : (previous : ℕ) → Leaves previous (destroy_previous_session ida previous s)
  destroyed-Leaves previous = elim (Option-cases (cifsd_session_lookup_slowpath s previous)) [
    | inl e ↦ subst (Leaves previous) (sym (not_there previous e)) (unmoved previous e)
    | inr (a, e) ↦
        let f : session_in s.sess s.sessions_table previous ≡ some a =
          unfold cifsd_session_lookup_slowpath in e in
        subst (Leaves previous) (sym (there previous a e))
          (destroyed-IsSound previous a f, λ x. destroyed_lookup previous a f x)
  ]

  unnamed : (previous : ℕ) → (previous == 0) ≡ true → s ≡ without_previous ida previous s
  unfolding without_previous
  unnamed previous e = ap (λ b. if b then s else destroy_previous_session ida previous s) (sym e)

  named :
      (previous : ℕ)
      → (previous == 0) ≡ false
      → destroy_previous_session ida previous s ≡ without_previous ida previous s
  unfolding without_previous
  named previous e = ap (λ b. if b then s else destroy_previous_session ida previous s) (sym e)

  none_zero :
      (previous : ℕ) → (previous == 0) ≡ true → cifsd_session_lookup_slowpath s previous ≡ none
  unfolding cifsd_session_lookup_slowpath
  none_zero previous e =
      let p : previous ≡ 0 = ground arith in ap (session_in s.sess s.sessions_table) p ∙ no_zero

  pub previous-Leaves : (previous : ℕ) → Leaves previous (without_previous ida previous s)
  previous-Leaves previous = elim (Bool-cases (previous == 0)) [
    | inl e ↦ subst (Leaves previous) (unnamed previous e) (unmoved previous (none_zero previous e))
    | inr e ↦ subst (Leaves previous) (named previous e) (destroyed-Leaves previous)
  ]
