-- ===== src/Lib.antt =====
-- rcsw: a C library of data structures, algorithms and multithreading wrappers.
--
-- Parts and files (paths from the repository's root):
-- - Base: shared names. Base/Memory is how a call on memory ends: with a value, with a fault (a read
--   or a write outside an array) or without fuel. Base/Codes has `status_t` with `errno`, `rcsw_alloc`
--   (src/common/alloc.c) and the comparison callback `cmpe`, of which only the sign is read.
-- - Rbuffer: src/ds/rbuffer.c and include/rcsw/ds/rbuffer.h. `Rbuffer` is `struct rbuffer`, and
--   `init`, `add`, `remove`, `serve_front`, `front`, `clear`, `index_query`, `map_elts`, `inject` are
--   the functions rbuffer_*. Rbuffer/Queue is the abstract queue, Rbuffer/Refine and Rbuffer/Run relate
--   the two, Rbuffer/Query is about the search and Rbuffer/Walk about the traversals.
-- - Binheap: src/ds/binheap.c and include/rcsw/ds/binheap.h. `Binheap` is `struct binheap`, and
--   `insert_key`, `extract`, `update_key`, `delete_key`, `make`, `sift_up`, `sift_down`, `swap` are the
--   functions binheap_*. Binheap/Order has the heap order, Binheap/Up and Binheap/Down the two sifts,
--   Binheap/Insert, Binheap/Extract and Binheap/Update the operations, Binheap/Build the loop that
--   makes a heap, Binheap/Make all of `make`.
-- - Sort: `partition`, `qsort_rec`, `qsort_iter` and `insertion_sort` of src/algorithm/sort.c, in place
--   on an array. Sort/Partition has the scans, Sort/Parting the partition loop, Sort/Qsort the
--   recursive quicksort, Sort/Sides and
--   Sort/Iter the one with a stack of its own, Sort/Insertion the insertion sort.
-- - Fifo: src/ds/fifo.c and include/rcsw/ds/fifo.h. `Fifo` is `struct fifo`, over Rbuffer; Fifo/Order
--   has the sequences of calls.
-- - Darray: src/ds/darray.c and include/rcsw/ds/darray.h. `Darray` is `struct darray`; Darray has the
--   memory, the queries and the walks, Darray/Edit `insert`, `remove` and `sort`. Darray/Spec has the
--   list that an array stands for and the edits of it, Darray/Gap the moves inside the block,
--   Darray/Grow what `realloc` leaves, Darray/Sorted insertion with the flag SORTED, Darray/Query the
--   searches, Darray/Insert and Darray/Remove the two edits and Darray/Trim the sizes after a resize or
--   a failed growth.
-- - Checksum: src/utils/checksum.c, with the bit reversal of include/rcsw/utils/utils.h.
--   Checksum/Rotate, Checksum/Sum, Checksum/Crc and Checksum/Brown are about the families, and
--   Checksum/Rounds about one bit or byte of a CRC; the static table is an argument and a result of
--   `crc32_ethl`. Base/Bits has the digits of `^`, `&` and `|`, Base/Words words of `k` digits.
-- - Hash: src/utils/hash.c; Hash/Words is about the values.
-- - Pcqueue: src/multithread/pcqueue.c over Fifo and the semaphores of src/multithread/csem.c, as steps
--   of any number of threads. `Pc` has the points of the calls, `thread_step` the code between two of
--   them, `Step` and `Reach` the interleavings. Pcqueue/Accounts has what the counts stand for,
--   Pcqueue/Steps one step, Pcqueue/Safety all states that can be reached, Pcqueue/Live the progress.
-- - Utils: the helpers on bits and arrays of src/utils/utils.c; Utils/Reflect is about the bits,
--   Utils/Permute about the permutations, which Utils/Orders has the lemmas of.
-- - EditDist: `edit_dist_iter` of src/algorithm/edit_dist.c. EditDist/Table compares the table with the
--   distance by recursion, EditDist/Bounds is about tables that are too small.
-- - Allocm: src/ds/allocm.c; Allocm/Probe is about the search for a free entry.
-- - Nodes: `struct llist_node` and a memory of them, and `mergesort_rec` of src/algorithm/sort.c.
--   Nodes/Chain has stretches of linked nodes, Nodes/Relink the writes at their ends, Nodes/Nexts
--   stretches of which only the forward links are known, Nodes/Merged, Nodes/Merge and
--   Nodes/MergeLoop the merge of two lists, Nodes/Mergesort and Nodes/MergesortRec the recursion.
-- - Llist: src/ds/llist.c and src/ds/llist_node.c with include/rcsw/ds/llist.h. `Llist` is `struct
--   llist` with its memory; its nodes and data blocks come from the application's memory, through the
--   maps of Allocm, or from `malloc`, an argument. Llist/Relink has deletion and clearing, Llist/Edit
--   the other operations. Llist/Inv has the invariant, Llist/Pool and Llist/Space are about the maps,
--   Llist/Create about the allocation of a node, Llist/Links, Llist/Unlink and Llist/Unlinked about the
--   links, and Llist/Init, Llist/Insert, Llist/Remove, Llist/Query, Llist/Filter and Llist/Sorted about
--   one family of operations each.
-- - Search: `bsearch_iter` and `bsearch_rec` of src/algorithm/search.c; a sum or an offset that
--   overflows an `int` is a fault.
--
-- Conventions. An array of elements is a list with one entry for `elt_size` bytes; an offset
-- `i * elt_size` is the index `i`, and ds_elt_copy or memcpy of one element is a load and a store.
-- Handles are not NULL, so the NULL tests of the precondition macros, which are taken in their default
-- form (return an error value), do not occur; an optional out-parameter is a flag. `size_t` sums wrap
-- at 2 ^ 64, and capacities fit an `int`, to which the code casts indices. Printing and logging are
-- left out. `realloc` of the C library is an argument, with the law that the old entries are in the new
-- block; the load factor of the dynamic array is compared with products, as `float` does exactly below
-- 2 ^ 24 slots.
--
-- Fuel. `query_loop` has one round more than there are slots; the scans of `partition` have one round
-- for each index up to the upper end, its outer loop moves the left pointer each round, and quicksort
-- has one level for each index: the theorems prove that none runs out. The binary searches halve, and
-- have one round for each index. A sift of the heap doubles or halves its index with each round.
-- The table of `crc32_ethl_init` has 256 rounds, and the probe of an allocation map one round for each
-- entry and one to stop. A walk over a list has one round for each node and one to stop; `mergesort_rec`
-- has as many levels and rounds as nodes and one more.
--
-- Not modelled: filtering and copying a dynamic array, the height of a heap; copying and splicing linked
-- lists and filtering them into a second list; trees, matrices and hash maps; `mergesort_iter` and the
-- radix sort of src/algorithm/sort.c, and the memoized edit distance; of multithreading, all but the
-- producer-consumer queue, and the setting of `errno` by a wait; `util_zchk`, which compares
-- floating-point numbers; text formatting and the tools.
pub mod Base
pub mod Rbuffer
pub mod Samples
pub mod Fifo
pub mod Pcqueue
pub mod Darray
pub mod Binheap
pub mod Sort
pub mod Checksum
pub mod Hash
pub mod Utils
pub mod EditDist
pub mod Allocm
pub mod Search
pub mod Nodes
pub mod Llist
