-- ===== src/Sessions/Rpc/Held.antt =====
-- The ids of the RPC handles, and the methods found under them, when handles are opened and closed.
use cifsd.Base.{
  ℕ, ◌≡◌, ◌≢◌, refl, ap, sym, ◌∙◌, Bool, true, false, Option, none, some, List, [], ◌∷◌, ◌==◌,
  if◌then◌else◌, arith, All, Bool-cases, inl, inr,
}
use cifsd.Ids.{Ida, IdaLaws, acquired, no_id, acquire_id}
use cifsd.Sessions.Rpc.{
  Handle, Rpc, Help, rpc_method, method_in, cifsd_session_rpc_method, cifds_acquire_id, opened,
  cifsd_session_rpc_open,
}

pub absent : (l : List Handle) (x : ℕ) → All (λ h. h.id ≢ x) l → method_in l x ≡ 0
unfolding method_in
absent [] x n = refl
absent (h ∷ l) x n = ground (arith, absent l x n.1, n.0)

module _ {I : Type 0} (ida : Ida I) where
  -- The handles have methods, and are under different ids that are taken.
  unfoldable pub Held : I → List Handle → Type 0
  Held t [] = Unit {0}
  Held t (h ∷ l) =
      (ida.is_taken t h.id ≡ true) × (h.method ≢ 0) × All (λ g. g.id ≢ h.id) l × Held t l

  unfoldable pub IsHeld : Rpc I → Type 0
  IsHeld s = Held s.ipc_ida s.rpc_handle_list

  Held-kept :
      (t t' : I) (l : List Handle)
      → ((h : Handle) → ida.is_taken t h.id ≡ true → ida.is_taken t' h.id ≡ true)
      → Held t l
      → Held t' l
  unfolding Held
  Held-kept t t' [] keeps v = tt
  Held-kept t t' (h ∷ l) keeps v = (keeps h v.0, v.1, v.2, Held-kept t t' l keeps v.3)

  -- An id that is not taken is no handle's.
  free :
      (t : I) (l : List Handle) (x : ℕ)
      → Held t l
      → ida.is_taken t x ≡ false
      → All (λ h. h.id ≢ x) l
  unfolding Held
  free t [] x v f = tt
  free t (h ∷ l) x v f =
      (λ e. ground (arith, sym v.0 ∙ ap (ida.is_taken t) e ∙ f), free t l x v.3 f)

  -- What an open leaves: a handle under a new id with the method of its name, or the handles there were.
  pub IsOpened : Rpc I → ℕ → Rpc I × Option ℕ → Type 0
  IsOpened s method (s', none) = IsHeld s' × (s'.rpc_handle_list ≡ s.rpc_handle_list)
  IsOpened s method (s', some id) =
      IsHeld s'
      × (cifsd_session_rpc_method s id ≡ 0)
      × (method ≢ 0)
      × ((x : ℕ)
          → cifsd_session_rpc_method s' x
            ≡ (if id == x then method else cifsd_session_rpc_method s x))

  module _ (laws : IdaLaws ida) (s : Rpc I) (v : IsHeld s) where
    got :
        (t' : I) (id : ℕ)
        → ida.ida_simple_get s.ipc_ida 0 0 ≡ some (id, t')
        → (h : Handle) → ida.is_taken s.ipc_ida h.id ≡ true
        → ida.is_taken t' h.id ≡ true
    got t' id e h taken = elim (Bool-cases (h.id == id)) [
      | inl same ↦
          let p : h.id ≡ id = ground arith in
          ap (ida.is_taken t') p ∙ laws.get_taken s.ipc_ida t' 0 0 id e
      | inr differ ↦ laws.get_other s.ipc_ida t' 0 0 id h.id e (ground arith) ∙ taken
    ]

    opened-IsOpened :
        (method : ℕ) (answer : Bool)
        → method ≢ 0
        → (r : Option (ℕ × I)) → ida.ida_simple_get s.ipc_ida 0 0 ≡ r
        → IsOpened s method (
            opened ida method answer s
              (elim r [ none ↦ no_id s.ipc_ida | some (id, t') ↦ acquired id t' ]))
    unfolding IsOpened opened IsHeld Held cifsd_session_rpc_method method_in
    opened-IsOpened method answer m none e = (v, refl)
    opened-IsOpened method true m (some (id, t')) e =
        let l = s.rpc_handle_list in
        let unused = free s.ipc_ida l id v (laws.get_free s.ipc_ida t' 0 0 id e) in
        (
          (
            laws.get_taken s.ipc_ida t' 0 0 id e,
            m,
            unused,
            Held-kept s.ipc_ida t' l (got t' id e) v,
          ),
          absent l id unused,
          m,
          λ x. refl,
        )
    opened-IsOpened method false m (some (id, t')) e =
        (Held-kept s.ipc_ida t' s.rpc_handle_list (got t' id e) v, refl)

    -- Beside handles under different taken ids, an open gives a handle under an id that none of them has, with
    -- the method of its name, or it leaves them as they are; all ids are then different and taken.
    pub rpc_open-IsOpened :
        (name : List ℕ) (help : Help)
        → IsOpened s (rpc_method name) (cifsd_session_rpc_open ida name help s)
    unfolding cifsd_session_rpc_open cifds_acquire_id acquire_id IsOpened
    rpc_open-IsOpened name help = elim (Bool-cases (rpc_method name == 0)) [
      | inl unknown ↦ rw unknown (v, refl)
      | inr known ↦ elim (Bool-cases help.memory) [
        | inl memory ↦
            rw (known, memory)
              (opened-IsOpened (rpc_method name) help.answer (ground arith)
                (ida.ida_simple_get s.ipc_ida 0 0) refl)
        | inr no_memory ↦ rw (known, no_memory) (v, refl)
      ]
    ]
