-- ===== src/Sessions/Rpc.antt =====
-- The RPC handles of a session: mgmt/user_session.c. The kernel's IDA and the answers of the daemon are
-- arguments.
pub mod Held
pub mod Close
mod Tests
use cifsd.Base.{
  ℕ, zero, suc, ◌≡◌, ◌≢◌, refl, ap, sym, ◌∙◌, Bool, true, false, ◌&&◌, ◌||◌, Option, none, some,
  List, [], ◌∷◌, ◌==◌, if◌then◌else◌, arith, All, Bool-cases, Option-cases, inl, inr,
}
use cifsd.Ids.{Ida, IdaLaws, Acquired, acquired, no_id, unfinished, acquire_id, cifds_release_id}

-- struct cifsd_session_rpc
pub record Handle : Type 0 where
  pub id : ℕ
  pub method : ℕ

-- The ids of the handles of all sessions, and the handles of this one, the last one first.
pub record Rpc (I : Type 0) : Type 0 where
  pub ipc_ida : I
  pub rpc_handle_list : List Handle

-- What there is for an open: memory, and an answer of the daemon.
pub record Help : Type 0 where
  pub memory : Bool
  pub answer : Bool

-- ! strcmp
pub strcmp0 : List ℕ → List ℕ → Bool
strcmp0 [] [] = true
strcmp0 [] (b ∷ t) = false
strcmp0 (a ∷ s) [] = false
strcmp0 (a ∷ s) (b ∷ t) = (a == b) && strcmp0 s t

-- "srvsvc", "wkssvc", "LANMAN" and "lanman"
abbrev pub srvsvc : List ℕ
srvsvc = 115 ∷ 114 ∷ 118 ∷ 115 ∷ 118 ∷ 99 ∷ []

abbrev pub wkssvc : List ℕ
wkssvc = 119 ∷ 107 ∷ 115 ∷ 115 ∷ 118 ∷ 99 ∷ []

abbrev pub upper_lanman : List ℕ
upper_lanman = 76 ∷ 65 ∷ 78 ∷ 77 ∷ 65 ∷ 78 ∷ []

abbrev pub lanman : List ℕ
lanman = 108 ∷ 97 ∷ 110 ∷ 109 ∷ 97 ∷ 110 ∷ []

pub rpc_method : List ℕ → ℕ
unfolding strcmp0
rpc_method name =
    if strcmp0 name (92 ∷ srvsvc) || strcmp0 name srvsvc
    then 2
    else if strcmp0 name (92 ∷ wkssvc) || strcmp0 name wkssvc
    then 4
    else if strcmp0 name upper_lanman || strcmp0 name lanman
    then 257
    else 0

pub method_in : List Handle → ℕ → ℕ
method_in [] id = 0
method_in (h ∷ rest) id = if h.id == id then h.method else method_in rest id

-- What the loop finds behind an entry.
pub behind : Handle → Option (ℕ × List Handle) → Option (ℕ × List Handle)
behind h none = none
behind h (some (closed, left)) = some (closed, h ∷ left)

pub close_in : List Handle → ℕ → Option (ℕ × List Handle)
unfolding behind
close_in [] id = none
close_in (h ∷ rest) id = if h.id == id then some (h.id, rest) else behind h (close_in rest id)

module _ {I : Type 0} where
  pub cifsd_session_rpc_method : Rpc I → ℕ → ℕ
  unfolding method_in
  cifsd_session_rpc_method s id = method_in s.rpc_handle_list id

module _ {I : Type 0} (ida : Ida I) where
  pub cifds_acquire_id : I → Acquired I
  unfolding acquire_id
  cifds_acquire_id t = acquire_id ida t 0 0

  -- The open after the call for an id. An id that the daemon does not answer for is not released.
  pub opened : ℕ → Bool → Rpc I → Acquired I → Rpc I × Option ℕ
  opened method answer s unfinished = (s, none)
  opened method answer s (no_id t) = (record s { ipc_ida = t }, none)
  opened method answer s (acquired id t) =
      if answer
      then (
        record {
          ipc_ida = t;
          rpc_handle_list = record { id = id; method = method } ∷ s.rpc_handle_list;
        },
        some id,
      )
      else (record s { ipc_ida = t }, none)

  -- The id of the handle, or none for -EINVAL.
  pub cifsd_session_rpc_open : List ℕ → Help → Rpc I → Rpc I × Option ℕ
  unfolding rpc_method opened cifds_acquire_id
  cifsd_session_rpc_open name help s =
      if rpc_method name == 0
      then (s, none)
      else if help.memory
      then opened (rpc_method name) help.answer s (cifds_acquire_id s.ipc_ida)
      else (s, none)

  pub without_handle : Rpc I → Option (ℕ × List Handle) → Rpc I
  unfolding cifds_release_id
  without_handle s none = s
  without_handle s (some (id, left)) = record {
    ipc_ida = cifds_release_id ida s.ipc_ida id;
    rpc_handle_list = left;
  }

  pub cifsd_session_rpc_close : ℕ → Rpc I → Rpc I
  unfolding close_in without_handle
  cifsd_session_rpc_close id s = without_handle s (close_in s.rpc_handle_list id)

  pub close_all : List Handle → I → I
  unfolding cifds_release_id
  close_all [] t = t
  close_all (h ∷ rest) t = close_all rest (cifds_release_id ida t h.id)

  pub cifsd_session_rpc_clear_list : Rpc I → Rpc I
  unfolding close_all
  cifsd_session_rpc_clear_list s = record {
    ipc_ida = close_all s.rpc_handle_list s.ipc_ida;
    rpc_handle_list = [];
  }
