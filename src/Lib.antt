-- ===== src/Lib.antt =====
-- Models of the New Relic C SDK, and of the containers that it is built on.
--
-- The SDK (src/*.c, include/*.h) is a thin layer of public functions. It keeps applications,
-- transactions, segments and custom events, which the caller holds by pointer, and calls the agent
-- library axiom (vendor/newrelic/axiom), which keeps the data. A transaction carries a lock that
-- is held around calls of axiom; an application carries another.
--
-- The parts, and where they are modelled:
--   Base              native numbers, Boolean tests, lists with native indices, C strings as bytes
--   Sdk.Config        src/config.c, the configuration and option structs
--   Sdk.Machine       the objects of include/{segment,transaction,app,custom_event}.h, the calls of
--                     axiom, the locks of util_threads.c, and the monad that the rest is written in
--   Sdk.Global        src/global.c            Sdk.App            src/app.c, src/app_internal.c
--   Sdk.Transaction   src/transaction.c       Sdk.Segment        src/segment.c
--   Sdk.Datastore     src/datastore.c         Sdk.External       src/external.c
--   Sdk.Attribute     src/attribute.c, src/custom_metric.c
--   Sdk.CustomEvent   src/custom_event.c      Sdk.Error          src/error.c
--   Sdk.DistributedTrace  src/distributed_trace.c
--   Sdk.Stack         src/stack.c
--   Sdk.Api           the public functions as one alphabet of operations
--   Sdk.Api.Clients   programs that pass pointers to live objects only, and what axiom promises
--   Sdk.Api.Discipline  which lock guards which calls      Sdk.Api.Threads   histories of threads
--   Examples          examples/common.c     Examples.Programs  examples/ex_*.c
--   Axiom.Vector      vendor/newrelic/axiom/util_vector.c
--   Axiom.Stack       vendor/newrelic/axiom/util_stack.c
--   Axiom.Children    vendor/newrelic/axiom/nr_segment_children*.{h,c}
--   Axiom.Segment     nr_segment_set_parent of vendor/newrelic/axiom/nr_segment.c
--   Axiom.Txn         the start, the timing and the end of segments, in nr_segment.c and nr_txn.c there
--   Axiom.ExclusiveTime  vendor/newrelic/axiom/nr_exclusive_time.c
--   Axiom.Ranking     the comparators of segments in nr_segment.c there
--   Axiom.Slab        util_slab.c there, without nr_slab_destroy
--   Base.Counts       counting the elements of a list
-- A definition has the name of the C function without its prefix (newrelic_, nr_vector_, nr_stack_,
-- nr_segment_children_, nr_segment_, nr_exclusive_time_). A long function is cut into helpers, each
-- beside the function it is cut from. A child module states and proves what its parent does.
--
-- The SDK runs on a `World`: its objects by address, the globals of src/global.c, the state of
-- axiom, and a trace of what was done, newest first. 0 is NULL; a read through NULL or through a
-- freed object, a second lock by the thread that holds it, an unlock of a free lock, and a read of
-- a member of a union that was not written are faults. Axiom is a parameter `perform`, which
-- answers a call with a number and a new state: what is proved holds whatever axiom answers, save
-- for the answers that a theorem names. A run is that of one thread, so a lock that is taken is
-- given back by the same thread or never. Of threads the histories of their events are modelled:
-- each thread runs on a world of its own, and a lock is taken only where no thread has it. The
-- allocator of the SDK ends the process where memory runs out, as nr_malloc does.
--
-- The vectors hold pointers as numbers in an unbounded array with its capacity and its length
-- beside it; `room` is the answer of the allocator to a request. Sizes are taken modulo 2 ^ 64.
-- The doubling loop of nr_vector_ensure runs on 65 rounds of fuel and a search on one round
-- more than the vector is long; both are proved to be enough. Children are a packed array or a
-- vector, which the code tells apart by the lowest bit of the vector's capacity; reading one as the
-- other is an outcome of its own.
--
-- The segments of one transaction are a map from addresses; a read of an address that holds none is
-- `none`, and so is a want of fuel. The loop of nr_segment_set_parent ends with as many rounds of
-- fuel as the new parent is deep in its tree, and one more; no tree is deeper than the segments of
-- its transaction are many. A call of a program on a transaction is a step of `Reach`, by the
-- result that it had, or of `run_calls`, which computes the result. The default parent stack is the
-- one that is modelled: the SDK gives no asynchronous context. The sort that
-- nr_exclusive_time_calculate calls is a parameter, of which what qsort promises is assumed: that
-- the result is sorted and has the same elements.
--
-- A page of a slab is named by its address, and what nr_zalloc answers is an argument.
--
-- A C string is the list of its bytes, of any length. The length that nr_strlen gives of one is an int,
-- here by its 32 bits, in newrelic_create_app_config and newrelic_create_app.
--
-- An example program is a run on the same world. What it reads of its environment and of files is
-- given; the loop of the server has no end, so a number of requests is.
--
-- Not modelled: logging, the version string, the files, prints and sleeps of the examples, the
-- destructors and the callbacks of vectors, the iteration over a tree of segments and its
-- destruction, and the rest of axiom: the other fields of its transactions, the heaps and string
-- pools, JSON, and the connection to the daemon. The daemon in vendor/newrelic/src is another
-- program.
pub mod Base
pub mod Axiom
pub mod Sdk
pub mod Examples
