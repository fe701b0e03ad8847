-- ===== src/Shares.antt =====
-- The shares in memory and their references: mgmt/share_config.c. A share is known by the pointer to it;
-- what the daemon answers, and whether the memory is there, are arguments.
pub mod Live
use cifsd.Base.{
  ℕ, ◌+◌, ◌≡◌, Bool, true, false, not, ◌&&◌, Option, none, some, List, [], ◌∷◌, map, ◌==◌, sub32,
  if◌then◌else◌,
}

-- A share in shares_table: struct cifsd_share_config without its reference count.
pub record Share : Type 0 where
  pub ptr : ℕ
  pub name : List ℕ
  pub pipe : Bool

-- shares_table, with the last addition first, the reference counts by pointer, and the pointer that the
-- next allocation gives.
pub record Table : Type 0 where
  pub shares : List Share
  pub refcount : ℕ → ℕ
  pub next : ℕ

abbrev pub set : (ℕ → ℕ) → ℕ → ℕ → ℕ → ℕ
set f p n x = if x == p then n else f x

-- strcmp(a, b) == 0
unfoldable pub same_name : List ℕ → List ℕ → Bool
same_name [] [] = true
same_name [] (b ∷ bs) = false
same_name (a ∷ rest) [] = false
same_name (a ∷ rest) (b ∷ bs) = (a == b) && same_name rest bs

unfoldable pub share_lookup : List ℕ → List Share → Option Share
unfolding same_name
share_lookup name [] = none
share_lookup name (s ∷ shares) =
    let rest = share_lookup name shares in if same_name name s.name then some s else rest

-- The pointer is given back only if the count was not 0, which goes up then.
unfoldable pub get_share_config : Share → Table → Option ℕ × Table
get_share_config s t =
    if t.refcount s.ptr == 0
    then (none, t)
    else (some s.ptr, record t { refcount = set t.refcount s.ptr (t.refcount s.ptr + 1) })

-- hash_del
unfoldable pub unlink : ℕ → List Share → List Share
unlink p [] = []
unlink p (s ∷ shares) = let rest = unlink p shares in if s.ptr == p then rest else s ∷ rest

unfoldable pub cifsd_share_config_put : ℕ → Table → Table
unfolding unlink
cifsd_share_config_put p t =
    let n = sub32 (t.refcount p) 1 in
    let t = record t { refcount = set t.refcount p n } in
    if n == 0 then record t { shares = unlink p t.shares } else t

-- The daemon's answer to a request for a share; `loads` is whether the name, the veto list and the path
-- of the share could be set up.
pub record Answer : Type 0 where
  pub invalid : Bool
  pub pipe : Bool
  pub loads : Bool

-- A lookup that gives no share if it is not there or on its way out.
unfoldable pub lookup_and_get : List ℕ → Table → Option ℕ × Table
unfolding share_lookup get_share_config
lookup_and_get name t = elim (share_lookup name t.shares) [
  | none ↦ (none, t)
  | some s ↦ get_share_config s t
]

-- The end of share_config_request: the new share is put into the table, or dropped if a lookup gives one
-- now.
unfoldable pub keep_or_add : List ℕ → Bool → Option ℕ × Table → Option ℕ × Table
keep_or_add name pipe (some p, t) = (some p, t)
keep_or_add name pipe (none, t) = (
  some t.next,
  record {
    shares = record { ptr = t.next; name = name; pipe = pipe } ∷ t.shares;
    refcount = set t.refcount t.next 1;
    next = t.next + 1;
  },
)

unfoldable pub add_share : List ℕ → Bool → Table → Option ℕ × Table
unfolding lookup_and_get keep_or_add
add_share name pipe t = keep_or_add name pipe (lookup_and_get name t)

unfoldable pub share_config_request : Bool → Option Answer → List ℕ → Table → Option ℕ × Table
unfolding add_share
share_config_request memory none name t = (none, t)
share_config_request memory (some a) name t =
    if a.invalid
    then (none, t)
    else if not memory
    then (none, t)
    else if not a.pipe && not a.loads
    then (none, t)
    else add_share name a.pipe t

unfoldable pub keep_or_request : Bool → Option Answer → List ℕ → Option ℕ × Table → Option ℕ × Table
unfolding share_config_request
keep_or_request memory answer name (some p, t) = (some p, t)
keep_or_request memory answer name (none, t) = share_config_request memory answer name t

-- `tolower` is the kernel's.
unfoldable pub cifsd_share_config_get :
    (ℕ → ℕ) → Bool → Option Answer → List ℕ → Table → Option ℕ × Table
unfolding lookup_and_get keep_or_request
cifsd_share_config_get tolower memory answer name t =
    keep_or_request memory answer (map tolower name) (lookup_and_get (map tolower name) t)
