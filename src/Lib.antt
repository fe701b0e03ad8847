-- ===== src/Lib.antt =====
-- cifsd is an SMB server inside the Linux kernel. A transport receives a message and checks it, a
-- worker dispatches it by protocol and command to a handler, and a handler opens, reads or locks
-- files through a cache of inodes. Clients share the opens of an inode (share modes, deletion on
-- close) and its oplocks and leases; a connection has its credits, and a session its tree connects and its
-- table of open files. A packet can hold a chain of requests, which one worker serves. This library
-- models the decisions over them and the check of the untrusted message before them. The paths below count from the repository's root.
--
-- The parts:
--   Base          helpers: Boolean tests of numbers, bits of masks, bounded and signed integers.
--   Wire          bytes of a message, little-endian fields (glob.h, smb2pdu.h): Wire.Hdr reads
--                 the fixed header, Wire.Request the offsets and lengths of each request.
--   Message       smb2misc.c: `cifsd_smb2_check_message` with `smb2_calc_size`,
--                 `smb2_get_data_area_len`, `get_neg_context_size` and the two tables.
--   ShareMode     smb_common.c: `cifsd_smb_check_shared_mode` over the earlier opens of an inode.
--   Credits       smb2pdu.c: the charge in `init_smb2_rsp_hdr` and `smb2_set_rsp_credits`.
--   Oplock        oplock.c, oplock.h: an oplock with its lease, and the conversions between levels.
--   Oplock.Ack    smb2pdu.c: `smb20_oplock_break` and `smb21_lease_break`, behind their lookups.
--   Oplock.Break  oplock.c: `smb_send_oplock_break_notification` with the waits for the holder.
--   Oplock.Owner  oplock.c: `same_client_has_lease`.
--   Oplock.Grant  oplock.c: `smb_grant_oplock`.
--   InodeCache    vfs_cache.c: the cached inode of a file, its count, and deletion on close.
--   FileTable     vfs_cache.c: ids of open files, their limit and lookups; the kernel's IDR is a
--                 parameter, with the laws that its documentation gives.
--   Pattern       misc.c: `match_pattern`, with the kernel's `tolower` as a parameter; the answer of
--                 the model is `none` when its fuel is used up.
--   Negotiate     smb_common.c, smb2pdu.c, smb2ops.c: `cifsd_lookup_dialect_by_id`,
--                 `cifsd_smb_negotiate_common`, the switch of `smb2_handle_negotiate`, and the
--                 `init_smb2_*_server`.
--   NegContexts   smb2pdu.c: `assemble_neg_contexts` and `deassemble_neg_contexts` over the bytes of
--                 the packet (Wire.Write has the fields that are written); the salt is an argument.
--   Ids           mgmt/cifsd_ida.c: the ids of sessions and tree connects; the kernel's IDA is a
--                 parameter, with the laws that its documentation gives.
--   Shares        mgmt/share_config.c: the table of shares and their reference counts; the answers of
--                 the daemon are arguments.
--   TreeConnect   mgmt/tree_connect.c, mgmt/user_session.c: the tree connects of a session, and with
--                 TreeConnect.View the map from ids to shares that they are.
--   Compound      smb2pdu.c, server.c: `is_chained_smb2_message` and the checks of session and tree
--                 connect; Compound.Serve has `__process_request` and `__handle_cifsd_work`.
--   Locks         smb2pdu.c: `smb2_lock`; Locks.Apply has its second loop and the rollback. The answers
--                 of the kernel's `vfs_lock_file` are an argument.
--   CreateContexts oplock.c: `parse_lease_state`, `smb2_find_context_vals` and `create_lease_buf` over
--                 the bytes of the packet; a walk over the contexts has a bound on their number, and
--                 CreateContexts.Chain has one that is enough.
--   Smb1Message   smb1misc.c: `cifsd_smb1_check_message` with the tables of words and bytes; Smb1Message.Hdr
--                 has the fields of smb1pdu.h that it reads.
--   Oplock.LeaseTable oplock.c: `lease_table_list` and the lookups of a lease key.
--   Oplock.BreakAll oplock.c: `smb_break_all_oplock` with the walks over write oplocks and readers.
--   FileTable.Reconnect vfs_cache.c: `is_reconnectable`, what the end of a tree connect or a session
--                 does to the opens, and `cifsd_reopen_durable_fd`; the walk over an IDR is a parameter.
--   Paths         misc.c: names of files, streams and shares, with the kernel's `tolower` as a parameter.
--   Sessions      mgmt/user_session.c: the table of sessions and the list of each connection;
--                 Sessions.Rpc has the RPC handles. The daemon's answers and the memory are arguments.
--   Acl           cifsacl.c: `set_chmod_dacl` and `parse_dacl` over the entries of a list, with
--                 `compare_sids` and the conversions between modes and access flags.
--   Vfs           vfs.c: `check_lock_range` and `cifsd_vfs_copy_file_ranges`; what the kernel's copy answers
--                 for each chunk is an argument. It uses the oplock walk of Oplock.BreakAll.
--   Time          time_wrappers.h: `cifs_UnixTimeToNT` and `cifs_NTtimeToUnix`.
--
-- They meet in these places. A break (Oplock.Break) waits while the holder's answers, which are the
-- handlers of Oplock.Ack or a close, change the same oplock; the answers are a list of events and
-- its end is the timeout. A grant (Oplock.Grant) breaks the newest oplock of the inode first and
-- then installs its own in front; the result of the share mode check is its argument. A negotiation
-- (Negotiate) reads the contexts of its packet with NegContexts. CreateContexts writes the lease that a
-- grant left and reads the one that a grant is asked for. A tree connect (TreeConnect) takes an id
-- from Ids and a reference from Shares, and gives both back when it fails or ends; its theorems use
-- theirs. The loop over a packet (Compound) calls the handlers through a table, which is its argument
-- as it is a table of functions in the code. A truncation (Oplock.BreakAll) breaks each oplock as
-- Oplock.Break does, and sessions (Sessions) and their RPC handles take their ids from Ids.
--
-- State is passed explicitly and a result holds the new state. A `__u32` wraps (`% 2 ^ 32`), a signed
-- `int` that the code tests for its sign is read off its unsigned pattern, `credits_granted` is an
-- integer that wraps at 32 bits. Pointers are numbers where only their identity is compared. The walk over
-- the negotiate contexts recurs on their count, and the other loops on lists, but for that of
-- `match_pattern`: its fuel is the length of the name times those of the name and the pattern
-- together, plus both and one, and is enough because each turn that goes back takes a character off
-- the name, and each other one reads a character of the name or of the pattern. The loops for an id
-- have two turns, which is enough because the reserved id is taken after the first. The loop of a
-- logoff has as many turns as the session has tree connects; those over sessions, opens, leases and
-- oplocks are recursions on their lists. The loop over a packet has one turn for each
-- of its requests, and one handler in each as SMB2 has no AndX; the chain is given as a hypothesis, since
-- the code bounds it by nothing. The loop that sends an answer has a bound that need not be enough.
-- The walk over the create contexts has a bound on their number, and as many as are linked is enough. A wait for a lock is an item in the list of the kernel's answers.
--
-- Not modelled: the bytes of responses other than the negotiate contexts, the lease context and the
-- fields that link a chain, most failures to allocate memory, the locks of the kernel code itself,
-- the reference counts of oplocks, interrupted waits, the other create contexts, the
-- handlers that read and write files, the handlers of SMB1, authentication, and the tables of error
-- codes.
pub mod Base
pub mod Wire
pub mod Message
pub mod ShareMode
pub mod Credits
pub mod Oplock
pub mod Acl
pub mod Compound
pub mod CreateContexts
pub mod FileTable
pub mod Ids
pub mod InodeCache
pub mod Locks
pub mod NegContexts
pub mod Negotiate
pub mod Paths
pub mod Pattern
pub mod Sessions
pub mod Shares
pub mod Smb1Message
pub mod Time
pub mod TreeConnect
pub mod Vfs
