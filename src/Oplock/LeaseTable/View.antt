-- ===== src/Oplock/LeaseTable/View.antt =====
-- The lease tables are a map from clients to lists of leases.
use cifsd.Base.{
  ℕ, ◌≡◌, ◌≢◌, ◌⊎◌, ◌↔◌, refl, sym, ap, ◌∙◌, inl, inr, true, Option, none, some, List, [], ◌∷◌,
  ◌==◌, if◌then◌else◌, arith, Bool-cases,
}
use cifsd.Oplock.{LeaseCtx}
use cifsd.Oplock.LeaseTable.{
  Entry, ClientTable, find_table, add_to_table, new_table, add_lease_global_list, without,
  lease_del_list, del_everywhere, is_among, is_in_table, destroy_lease_table, compare_guid_key,
  key_elsewhere, find_same_lease_key, elsewhere_in, add_found,
}

-- The leases that a lookup for a client sees.
pub view : List ClientTable → ℕ → List Entry
view [] g = []
view (t ∷ ts) g = if t.client_guid == g then t.lease_list else view ts g

found_cases :
    (g : ℕ) (ts : List ClientTable)
    → ((find_table g ts ≡ none) × (view ts g ≡ []))
      ⊎ ((t : ClientTable) × (find_table g ts ≡ some t) × (view ts g ≡ t.lease_list))
unfolding find_table view
found_cases g [] = inl (refl, refl)
found_cases g (t ∷ ts) = elim (Bool-cases (t.client_guid == g)) [
  | inl same ↦ inr (t, rw same, rw same)
  | inr other ↦ rw other (found_cases g ts)
]

view-add_to_table :
    (e : Entry) (ts : List ClientTable) (g : ℕ) (t : ClientTable)
    → find_table e.info.client_guid ts ≡ some t
    → view (add_to_table e ts) g ≡ (if e.info.client_guid == g then e ∷ view ts g else view ts g)
unfolding add_to_table view find_table
view-add_to_table e [] g t h = ground arith
view-add_to_table e (u ∷ ts) g t h = ground (arith, view-add_to_table e ts g t)

view-new_table :
    (e : Entry) (ts : List ClientTable) (g : ℕ)
    → view ts e.info.client_guid ≡ []
    → view (new_table e ts) g ≡ (if e.info.client_guid == g then e ∷ view ts g else view ts g)
unfolding new_table view
view-new_table e ts g v = elim (Bool-cases (e.info.client_guid == g)) [
  | inl same ↦
      let k : e.info.client_guid ≡ g = ground arith in rw same (ap (λ l. e ∷ l) (sym (rw (← k) v)))
  | inr other ↦ rw other
]

view-add :
    (e : Entry) (ts : List ClientTable) (g : ℕ)
    → view (add_lease_global_list e ts) g
      ≡ (if e.info.client_guid == g then e ∷ view ts g else view ts g)
unfolding add_lease_global_list add_found
view-add e ts g = elim (found_cases e.info.client_guid ts) [
  | inl (h, v) ↦ ap (λ o. view (add_found o e ts) g) h ∙ view-new_table e ts g v
  | inr (t, h, v) ↦ ap (λ o. view (add_found o e ts) g) h ∙ view-add_to_table e ts g t h
]

view-del :
    (a : ℕ) (ts : List ClientTable) (g : ℕ) → view (del_everywhere a ts) g ≡ without a (view ts g)
unfolding del_everywhere view without
view-del a [] g = refl
view-del a (t ∷ ts) g = ground (arith, view-del a ts g)

view-destroy :
    (d : ℕ) (ts : List ClientTable) (g : ℕ)
    → view (destroy_lease_table (some d) ts) g ≡ (if d == g then [] else view ts g)
unfolding destroy_lease_table view
view-destroy d [] g = ground arith
view-destroy d (t ∷ ts) g = ground (arith, view-destroy d ts g)

-- What happens to the tables: a grant, the close of an open, the end of a connection, or shutdown.
pub data TableEvent : Type 0 where
  granted : Entry → TableEvent
  closed : ℕ → TableEvent
  disconnected : ℕ → TableEvent
  shut_down : TableEvent

-- The tables afterwards, or none if a close has used a table that was freed.
pub run : List TableEvent → List ClientTable → Option (List ClientTable)
run [] ts = some ts
run (granted e ∷ es) ts = run es (add_lease_global_list e ts)
run (closed a ∷ es) ts = elim (lease_del_list a ts) [ none ↦ none | some ts' ↦ run es ts' ]
run (disconnected g ∷ es) ts = run es (destroy_lease_table (some g) ts)
run (shut_down ∷ es) ts = run es (destroy_lease_table none ts)

-- The same on a map from clients to lists.
unfoldable pub held : TableEvent → (ℕ → List Entry) → ℕ → List Entry
held (granted e) m g = if e.info.client_guid == g then e ∷ m g else m g
held (closed a) m g = without a (m g)
held (disconnected d) m g = if d == g then [] else m g
held shut_down m g = []

pub run_held : List TableEvent → (ℕ → List Entry) → ℕ → List Entry
run_held [] m = m
run_held (e ∷ es) m = run_held es (held e m)

-- Every open that is closed has its lease in the map then: it was granted, and neither closed nor dropped
-- with its connection.
unfoldable pub IsOrderly : List TableEvent → (ℕ → List Entry) → Type 0
IsOrderly [] m = Unit
IsOrderly (granted e ∷ es) m = IsOrderly es (held (granted e) m)
IsOrderly (closed a ∷ es) m =
    ((g : ℕ) × (is_among a (m g) ≡ true)) × IsOrderly es (held (closed a) m)
IsOrderly (disconnected d ∷ es) m = IsOrderly es (held (disconnected d) m)
IsOrderly (shut_down ∷ es) m = IsOrderly es (held shut_down m)

view-is_in_table :
    (a g : ℕ) (ts : List ClientTable) → is_among a (view ts g) ≡ true → is_in_table a ts ≡ true
unfolding view is_in_table is_among
view-is_in_table a g [] h = absurd (ground arith)
view-is_in_table a g (t ∷ ts) h = ground (arith, view-is_in_table a g ts)

del-some :
    (a : ℕ) (ts : List ClientTable)
    → is_in_table a ts ≡ true
    → lease_del_list a ts ≡ some (del_everywhere a ts)
unfolding lease_del_list
del-some a ts h = rw h refl

run-closed :
    (a : ℕ) (es : List TableEvent) (ts : List ClientTable)
    → lease_del_list a ts ≡ some (del_everywhere a ts)
    → run (closed a ∷ es) ts ≡ run es (del_everywhere a ts)
unfolding run
run-closed a es ts e = ap (λ o. elim o [ none ↦ none | some ts' ↦ run es ts' ]) e

Shows : List ClientTable → (ℕ → List Entry) → Type 0
Shows ts m = (g : ℕ) → view ts g ≡ m g

-- The run does not end early, and its tables show the map.
view-run :
    (es : List TableEvent) (ts : List ClientTable) (m : ℕ → List Entry)
    → Shows ts m
    → IsOrderly es m
    → (ts' : List ClientTable) × (run es ts ≡ some ts') × Shows ts' (run_held es m)
unfolding run run_held held view destroy_lease_table Shows IsOrderly
view-run [] ts m h o = (ts, refl, h)
view-run (granted e ∷ es) ts m h o = view-run es _ _ (λ k. ground (arith, view-add e ts k, h k)) o
view-run (closed a ∷ es) ts m h ((g, there), o) =
    let d = del-some a ts (view-is_in_table a g ts (ap (is_among a) (h g) ∙ there)) in
    let (ts', r, v) =
      view-run es (del_everywhere a ts) (held (closed a) m)
        (λ k. view-del a ts k ∙ ap (without a) (h k)) o in
    (ts', run-closed a es ts d ∙ r, v)
view-run (disconnected d ∷ es) ts m h o =
    view-run es _ _ (λ k. ground (arith, view-destroy d ts k, h k)) o
view-run (shut_down ∷ es) ts m h o = view-run es _ _ (λ k. refl) o

-- A lease of the client with the key, on another inode.
pub HeldElsewhere : ℕ → ℕ → ℕ → List Entry → Type 0
HeldElsewhere g inode key [] = ⊥
HeldElsewhere g inode key (e ∷ es) =
    ((e.inode ≢ inode) × (e.info.client_guid ≡ g) × (e.info.o_lease.lease_key ≡ key))
    ⊎ HeldElsewhere g inode key es

key_elsewhere_iff :
    (g inode key : ℕ) (es : List Entry)
    → (key_elsewhere g inode key es ≡ true) ↔ HeldElsewhere g inode key es
unfolding key_elsewhere HeldElsewhere compare_guid_key
key_elsewhere_iff g inode key [] = (λ h. ground arith, λ h. absurd h)
key_elsewhere_iff g inode key (e ∷ es) =
    let ih = key_elsewhere_iff g inode key es in (λ h. ground (arith, ih), λ h. ground (arith, ih))

elsewhere-view :
    (g inode key : ℕ) (ts : List ClientTable)
    → elsewhere_in g inode key (find_table g ts) ≡ key_elsewhere g inode key (view ts g)
unfolding elsewhere_in key_elsewhere
elsewhere-view g inode key ts = elim (found_cases g ts) [
  | inl (h, v) ↦ ap (elsewhere_in g inode key) h ∙ sym (ap (key_elsewhere g inode key) v)
  | inr (t, h, v) ↦ ap (elsewhere_in g inode key) h ∙ sym (ap (key_elsewhere g inode key) v)
]

abbrev pub empty : ℕ → List Entry
empty g = []

-- After any grants, closes, ends of connections and shutdowns, where no open is closed whose lease its
-- connection took along, no freed table is used, and an open with a lease context is refused exactly
-- when its client holds a lease with its key on another inode: one that was granted, not closed since,
-- and not dropped with its connection.
pub find_same_lease_key_iff :
    (es : List TableEvent) (g inode : ℕ) (c : LeaseCtx)
    → IsOrderly es empty
    → (ts : List ClientTable) × (run es [] ≡ some ts)
      × ((find_same_lease_key g inode (some c) ts ≡ true)
          ↔ HeldElsewhere g inode c.lease_key (run_held es empty g))
unfolding find_same_lease_key view Shows
find_same_lease_key_iff es g inode c o =
    let (ts, r, v) = view-run es [] empty (λ k. refl) o in
    let e = elsewhere-view g inode c.lease_key ts ∙ ap (key_elsewhere g inode c.lease_key) (v g) in
    (ts, r, rw e (key_elsewhere_iff g inode c.lease_key (run_held es empty g)))
