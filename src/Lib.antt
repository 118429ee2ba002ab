-- ===== src/Lib.antt =====
-- Lockspaces and posix locks in dlm_controld, the daemon that runs the distributed lock manager of a
-- cluster.
--
-- The nodes of a lockspace form a group. When a node joins, leaves or fails, every node gets the
-- same configuration change, stops its kernel, waits until failed nodes are fenced, sends a start
-- message, waits for those of all members and lets the kernel go on (group/dlm_controld/cpg.c).
--
-- A file system on the nodes of a cluster sends the requests of processes for byte-range locks to
-- its node's daemon. Without ownership each request goes to all nodes as a message, in one order,
-- and every daemon applies it to its own copy of the locks (group/dlm_controld/plock.c). With
-- ownership a node can own a file ("resource") and apply its requests alone; messages move the
-- ownership. A node that joins reads the state from a checkpoint and then the messages it saved; the
-- state of a node that leaves is purged.
--
-- The files below Plock model group/dlm_controld/plock.c:
--   Plock/Types      the structs, the settings (Env), the allocator and the outputs (World)
--   Plock/Wire       the byte order of messages (also group/include/linux_endian.h)
--   Plock/Range      overlap_type, shrink_range2, ranges_overlap
--   Plock/Locks      is_conflict, lock_internal, unlock_internal and the functions they call
--   Plock/Grant      do_lock, do_unlock, do_get, do_waiters, __receive_plock (apply_plock here)
--   Plock/Resource   find_resource and the functions that send messages
--   Plock/Messages   receive_plock, receive_own; Plock/Sync: receive_sync, receive_drop,
--                    drop_resources, process_saved_plocks
--   Plock/Device     process_plocks, limit_plocks, mg_to_ls_id (also find_ls_id of
--                    group/dlm_controld/main.c, set_associated_id of group/dlm_controld/action.c)
--   Plock/Purge      purge_plocks
--   Plock/Checkpoint pack_section_buf, unpack_section_buf, and the loops over sections in
--                    store_plocks and retrieve_plocks
-- Below these, Locks/Lock, Locks/Unlock, Locks/Table and the other files in folders hold proofs; they
-- see a list of locks as a function of node, process and byte (Locks/View).
--   Plock/Replica    a reference for the state without ownership, with no nodes, tables or
--                    allocator; Replica/Cluster compares the nodes with it
-- The files below Group model group/dlm_controld/cpg.c:
--   Group/Types      the structs, the settings and answers of other services (GroupEnv), the outputs;
--                    a Space is a struct lockspace, whose plock part is the Lockspace of Plock/Types
--   Group/History    node_history_init, _start, _left, _fail, set_fs_notified
--   Group/Conditions check_fencing_done, check_quorum_done, check_fs_done, wait_conditions_done
--   Group/Start      match_change, find_change, receive_start, receive_plocks_stored
--   Group/Changes    send_info, start_kernel, stop_kernel, prepare_plocks, apply_changes
--   Group/Adding     add_change; its loops end at the first error, as `goto fail` does
--   Group/Callbacks  confchg_cb, deliver_cb; the deadlock detection is the interface Detector
--   Group/Queries    set_lockspace_info, set_node_info, set_lockspaces, set_lockspace_nodes
-- Group/Control holds the steps of a lockspace and what holds after them; Conditions/Clear,
-- Matching, Outcome, Stages and Added hold the other proofs. A write through a pointer that find_memb,
-- find_change or get_node_history has returned is a function that changes the first entry found.
-- The files below Protocol model the protocol version in group/dlm_controld/cpg.c:
--   Protocol         pick_min_protocol, receive_protocol, set_protocol, whose loop runs over the
--                    events that it waits for
-- Lowest and Agreement hold the proofs.
-- The files below Deadlock model group/dlm_controld/deadlock.c, which looks for cycles of
-- transactions that wait for one another, from the locks of all nodes:
--   Deadlock/Locks   the locks and resources, read from the kernel and from checkpoints
--   Deadlock/Graph   create_trans_list, create_waitfor_graph
--   Deadlock         remove_waitfor, remove_trans, reduce_waitfor_graph and its loop; the loop may
--                    make one round more than there are transactions, since each round but the
--                    last removes one
--   Deadlock/Cycle   cancel_trans, find_deadlock, run_deadlock
--   Deadlock/Handlers the receive functions and deadlk_confchg, as a Detector for the group
-- Filling, Linking, Linked, Build, Complete, Listed, Listing, Standing and Edges hold the proofs about
-- the graph that is built, and Reduce, Ending, Pointers and Exact those about its reduction. A lock is kept both in
-- the list of its resource and in that of its transaction: the fields that are written after it is
-- in both are read from one.
-- The files below Daemon model group/dlm_controld/main.c:
--   Daemon/Crc       cpgname_to_crc (group/dlm_controld/crc.c)
--   Daemon/Clients   client_alloc, client_add, client_dead, client_ignore, client_back; the search of
--                    client_add may be made twice, since a table that was enlarged has a free slot
--   Daemon/Spaces    create_ls, find_ls, fs_register_add, _check, _del; also dlm_join_lockspace and
--                    dlm_leave_lockspace of group/dlm_controld/cpg.c
--   Daemon/Requests  process_uevent, process_connection, process_listener, and the calls of the poll
--                    loop, one at a time
--   Daemon/Queries   the replies of process_queries
-- Slots, Consistent, Registered, Steps, Joined and Trace hold the proofs. The callbacks of Group change
-- a lockspace between these calls; here only the last of them, which frees it, is one.
-- The files below Configfs model the members in configfs:
--   Configfs/Files   the file system, a record of its calls, and what is relied on (IsLawful)
--   Configfs/Weight  get_weight (group/dlm_controld/config.c)
--   Configfs/Nodes   quorum_callback, update_cluster (group/dlm_controld/member_cman.c),
--                    add_configfs_node, del_configfs_node (group/dlm_controld/action.c)
--   Configfs/Members set_configfs_members; Configfs/Cleanup: clear_configfs, setup_configfs (both
--                    group/dlm_controld/action.c)
-- Loops, Rounds and Synced hold the proofs, Memory a file system in memory.
-- Options models setup_ccs of group/dlm_controld/config.c and read_arguments of
-- group/dlm_controld/main.c; Options/Values and Options/Choice hold the proofs.
-- A function keeps the name it has in C; `_receive_x` is receive_x_now, `__receive_plock` is
-- apply_plock. Where a C function is long, its branches are functions of their own.
-- find_ls is find_space where it searches whole lockspaces.
--
-- A C int that is only compared (nodeid, owner) is its 32-bit pattern, so -1 is 2 ^ 32 - 1, and `<`
-- compares its int_rank; `x - 1`
-- and `x + 1` on uint64_t wrap around. A list of C structs is a list; a function that frees a
-- resource returns none. malloc answers from a list of outcomes, and succeeds when that is used up,
-- so every pattern of failures can be given. What the code reads from memory that malloc has not
-- cleared is given from outside (stale_flag of Env, Garbage, stale of Daemon). Where the code reads
-- from a null pointer, the output crash is made, and what follows it is not said of the code. Messages and writes to the device are collected
-- in the order in which they are made. The clocks read in one event have one value. The loops,
-- but for the one of deadlock.c and the search of client_add, run over lists, so they need no fuel.
--
-- Not modelled: the group of the daemons itself (setup_cpg, close_cpg), the start of the daemon and
-- its sockets, do_read and do_write, netlink, pacemaker, log messages, the text dumps, the calls of
-- the checkpoint service and of the group communication service themselves, files of the kernel other
-- than configfs, and the text of paths and of a section's id, which are taken as the names and numbers
-- that they spell. linux/dlm_plock.h is not part of the repository: its struct is modelled by the
-- fields that the code names, and its operation codes by constructors.
pub mod Base
pub mod Plock
pub mod Deadlock
pub mod Group
pub mod Protocol
pub mod Configfs
pub mod Options
pub mod Daemon
