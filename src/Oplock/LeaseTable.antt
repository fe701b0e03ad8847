-- ===== src/Oplock/LeaseTable.antt =====
-- lease_table_list of oplock.c: the leases of every client, for the lookup of a lease key. Locks and
-- reference counts are not modelled; memory for a table is there.
pub mod View
use cifsd.Base.{
  ℕ, Bool, true, false, not, ◌&&◌, ◌||◌, Option, none, some, List, [], ◌∷◌, ◌==◌, if◌then◌else◌,
}
use cifsd.Oplock.{OpState, idle, ack_wait, closing, OpInfo, LeaseCtx, handles, writes}

-- An oplock_info in a list: its address, the inode of its open, and its content.
pub record Entry : Type 0 where
  pub address : ℕ
  pub inode : ℕ
  pub info : OpInfo

-- struct lease_table
pub record ClientTable : Type 0 where
  pub client_guid : ℕ
  pub lease_list : List Entry

pub find_table : ℕ → List ClientTable → Option ClientTable
find_table g [] = none
find_table g (t ∷ ts) = if t.client_guid == g then some t else find_table g ts

-- lease_add_list, to the first table of the client
add_to_table : Entry → List ClientTable → List ClientTable
add_to_table e [] = []
add_to_table e (t ∷ ts) =
    if t.client_guid == e.info.client_guid
    then record t { lease_list = e ∷ t.lease_list } ∷ ts
    else t ∷ add_to_table e ts

-- A table for the client, which lb_add puts first.
new_table : Entry → List ClientTable → List ClientTable
new_table e ts = record { client_guid = e.info.client_guid; lease_list = e ∷ [] } ∷ ts

add_found : Option ClientTable → Entry → List ClientTable → List ClientTable
unfolding add_to_table new_table
add_found none e ts = new_table e ts
add_found (some t) e ts = add_to_table e ts

pub add_lease_global_list : Entry → List ClientTable → List ClientTable
unfolding find_table add_found
add_lease_global_list e ts = add_found (find_table e.info.client_guid ts) e ts

pub without : ℕ → List Entry → List Entry
without a [] = []
without a (e ∷ es) = if e.address == a then without a es else e ∷ without a es

unfoldable pub is_among : ℕ → List Entry → Bool
is_among a [] = false
is_among a (e ∷ es) = e.address == a || is_among a es

-- Whether the table that an entry points to with `l_lb` is there: it is freed with its last entry dropped.
pub is_in_table : ℕ → List ClientTable → Bool
unfolding is_among
is_in_table a [] = false
is_in_table a (t ∷ ts) = is_among a t.lease_list || is_in_table a ts

pub del_everywhere : ℕ → List ClientTable → List ClientTable
unfolding without
del_everywhere a [] = []
del_everywhere a (t ∷ ts) = record t { lease_list = without a t.lease_list } ∷ del_everywhere a ts

-- lease_del_list, of an entry that stands in one table at most; `none` is the use of a table that
-- destroy_lease_table has freed.
pub lease_del_list : ℕ → List ClientTable → Option (List ClientTable)
unfolding is_in_table del_everywhere
lease_del_list a ts = if is_in_table a ts then some (del_everywhere a ts) else none

-- destroy_lease_table, for the GUID of a connection, or for all.
pub destroy_lease_table : Option ℕ → List ClientTable → List ClientTable
destroy_lease_table none ts = []
destroy_lease_table (some g) [] = []
destroy_lease_table (some g) (t ∷ ts) =
    if t.client_guid == g
    then destroy_lease_table (some g) ts
    else t ∷ destroy_lease_table (some g) ts

unfoldable pub compare_guid_key : OpInfo → ℕ → ℕ → Bool
compare_guid_key o g key = o.client_guid == g && o.o_lease.lease_key == key

-- The loop of find_same_lease_key: the key on another inode.
pub key_elsewhere : ℕ → ℕ → ℕ → List Entry → Bool
key_elsewhere g inode key [] = false
key_elsewhere g inode key (e ∷ es) =
    if e.inode == inode
    then key_elsewhere g inode key es
    else compare_guid_key e.info g key || key_elsewhere g inode key es

pub elsewhere_in : ℕ → ℕ → ℕ → Option ClientTable → Bool
unfolding key_elsewhere
elsewhere_in g inode key none = false
elsewhere_in g inode key (some t) = key_elsewhere g inode key t.lease_list

-- -EINVAL, shown by `true`, tells that the key is in use for another file.
pub find_same_lease_key : ℕ → ℕ → Option LeaseCtx → List ClientTable → Bool
unfolding find_table elsewhere_in
find_same_lease_key g inode none ts = false
find_same_lease_key g inode (some c) ts = elsewhere_in g inode c.lease_key (find_table g ts)

is_breaking : OpState → Bool
is_breaking idle = false
is_breaking ack_wait = true
is_breaking closing = false

-- The loop of lookup_lease_in_table.
pub find_breaking : ℕ → ℕ → List Entry → Option Entry
unfolding is_breaking
find_breaking g key [] = none
find_breaking g key (e ∷ es) =
    if is_breaking e.info.op_state
      && ((handles e.info.o_lease.state || writes e.info.o_lease.state)
          && compare_guid_key e.info g key)
    then some e
    else find_breaking g key es

pub breaking_in : ℕ → ℕ → Option ClientTable → Option Entry
unfolding find_breaking
breaking_in g key none = none
breaking_in g key (some t) = find_breaking g key t.lease_list

pub lookup_lease_in_table : ℕ → ℕ → List ClientTable → Option Entry
unfolding find_table breaking_in
lookup_lease_in_table g key ts = breaking_in g key (find_table g ts)
