-- ===== src/Sessions/Rpc/Close.antt =====
-- The close of an RPC handle: its id is free, and the other handles are found as before.
use mathlib.Core.Path.{subst}
use cifsd.Base.{
  ℕ, ◌≡◌, ◌≢◌, refl, sym, ◌∙◌, false, Option, none, some, List, [], ◌∷◌, ◌==◌, if◌then◌else◌, arith,
  All, Bool-cases, inl, inr,
}
use cifsd.Ids.{Ida, IdaLaws, cifds_release_id}
use cifsd.Sessions.Rpc.{
  Handle, Rpc, method_in, behind, close_in, cifsd_session_rpc_method, without_handle,
  cifsd_session_rpc_close,
}
use cifsd.Sessions.Rpc.Held.{absent, Held, IsHeld}

left_after : List Handle → Option (ℕ × List Handle) → List Handle
left_after l none = l
left_after l (some (id, left)) = left

-- The entry that is closed is under the id.
Under : ℕ → Option (ℕ × List Handle) → Type 0
Under id none = Unit {0}
Under id (some (c, left)) = c ≡ id

behind-Under :
    (h : Handle) (id : ℕ) (o : Option (ℕ × List Handle)) → Under id o → Under id (behind h o)
unfolding Under behind
behind-Under h id none u = tt
behind-Under h id (some (c, left)) u = u

close-Under : (l : List Handle) (id : ℕ) → Under id (close_in l id)
unfolding Under close_in
close-Under [] id = tt
close-Under (h ∷ l) id = elim (Bool-cases (h.id == id)) [
  | inl same ↦ let p : h.id ≡ id = ground arith in rw same p
  | inr differ ↦ rw differ (behind-Under h id (close_in l id) (close-Under l id))
]

left_behind :
    (h : Handle) (l : List Handle) (o : Option (ℕ × List Handle))
    → left_after (h ∷ l) (behind h o) ≡ h ∷ left_after l o
unfolding left_after behind
left_behind h l none = refl
left_behind h l (some (c, left)) = refl

first_closed :
    (h : Handle) (l : List Handle) (id x : ℕ)
    → h.id ≡ id
    → All (λ g. g.id ≢ h.id) l
    → method_in l x ≡ (if id == x then 0 else method_in (h ∷ l) x)
unfolding method_in
first_closed h l id x e n = elim (Bool-cases (id == x)) [
  | inl same ↦
      let p : h.id ≡ x = ground arith in
      rw same (absent l x (subst (λ i. All (λ g. g.id ≢ i) l) p n))
  | inr differ ↦ let q : (h.id == x) ≡ false = ground arith in rw (differ, q) refl
]

-- The entries that stay are not under the id.
All-left :
    (P : Handle → Type 0) (l : List Handle) (id : ℕ)
    → All P l
    → All P (left_after l (close_in l id))
unfolding left_after close_in
All-left P [] id p = tt
All-left P (h ∷ l) id p = elim (Bool-cases (h.id == id)) [
  | inl same ↦ rw same p.1
  | inr differ ↦ rw (differ, left_behind h l (close_in l id)) (p.0, All-left P l id p.1)
]

module _ {I : Type 0} (ida : Ida I) where
  close_found :
      (t : I) (l : List Handle) (id x : ℕ)
      → Held ida t l
      → method_in (left_after l (close_in l id)) x ≡ (if id == x then 0 else method_in l x)
  unfolding method_in close_in left_after Held
  close_found t [] id x v = ground arith
  close_found t (h ∷ l) id x v = elim (Bool-cases (h.id == id)) [
    | inl same ↦ rw same (first_closed h l id x (ground arith) v.2)
    | inr differ ↦
        rw (differ, left_behind h l (close_in l id))
          (ground (arith, close_found t l id x v.3, differ))
  ]

  close-Held :
      (t : I) (l : List Handle) (id : ℕ)
      → Held ida t l
      → Held ida t (left_after l (close_in l id))
        × All (λ h. h.id ≢ id) (left_after l (close_in l id))
  unfolding close_in left_after Held
  close-Held t [] id v = (tt, tt)
  close-Held t (h ∷ l) id v =
      let (rest, apart) = close-Held t l id v.3 in
      elim (Bool-cases (h.id == id)) [
        | inl same ↦
            let p : h.id ≡ id = ground arith in
            rw same (v.3, subst (λ i. All (λ g. g.id ≢ i) l) p v.2)
        | inr differ ↦
            rw (differ, left_behind h l (close_in l id))
              ((v.0, v.1, All-left (λ g. g.id ≢ h.id) l id v.2, rest), (ground arith, apart))
      ]

  module _ (laws : IdaLaws ida) where
    Held-released :
        (t : I) (l : List Handle) (id : ℕ)
        → Held ida t l
        → All (λ h. h.id ≢ id) l
        → Held ida (ida.ida_simple_remove t id) l
    unfolding Held
    Held-released t [] id v n = tt
    Held-released t (h ∷ l) id v n =
        (laws.remove_other t id h.id n.0 ∙ v.0, v.1, v.2, Held-released t l id v.3 n.1)

    without_handle-IsHeld :
        (s : Rpc I) (id x y : ℕ) (o : Option (ℕ × List Handle))
        → Under id o
        → Held ida s.ipc_ida (left_after s.rpc_handle_list o)
        → All (λ h. h.id ≢ id) (left_after s.rpc_handle_list o)
        → method_in (left_after s.rpc_handle_list o) x ≡ y
        → IsHeld ida (without_handle ida s o)
          × (cifsd_session_rpc_method (without_handle ida s o) x ≡ y)
    unfolding IsHeld cifsd_session_rpc_method without_handle cifds_release_id left_after Under
    without_handle-IsHeld s id x y none u v n e = (v, e)
    without_handle-IsHeld s id x y (some (c, left)) u v n e = (
      subst (λ i. Held ida (ida.ida_simple_remove s.ipc_ida i) left) (sym u)
          (Held-released s.ipc_ida left id v n),
      e,
    )

    -- Of handles under different taken ids, a close takes the one of its id away and no other; the rest stay
    -- under different taken ids.
    pub rpc_close-IsHeld :
        (s : Rpc I) (id x : ℕ)
        → IsHeld ida s
        → IsHeld ida (cifsd_session_rpc_close ida id s)
          × (cifsd_session_rpc_method (cifsd_session_rpc_close ida id s) x
              ≡ (if id == x then 0 else cifsd_session_rpc_method s x))
    unfolding cifsd_session_rpc_close IsHeld cifsd_session_rpc_method
    rpc_close-IsHeld s id x v =
        let l = s.rpc_handle_list in
        let (rest, apart) = close-Held s.ipc_ida l id v in
        without_handle-IsHeld s id x (if id == x then 0 else method_in l x) (close_in l id)
          (close-Under l id) rest apart (close_found s.ipc_ida l id x v)
