-- ===== src/Lib.antt =====
-- The ROS 2 graph adapter for RTI Connext DDS: the C library in src/adapter_c with its public header
-- include/rticonnextdds_ros2_adapter/rticonnextdds_ros2_adapter_c.h, and the C++ library in
-- src/adapter_cpp on top of it.
--
-- A graph object keeps the ROS 2 nodes of a process and, for each node, its endpoints
-- (subscriptions, publishers, clients and services) with the DDS readers and writers behind them.
-- Public functions register and unregister nodes and endpoints; an inspection finds the DDS
-- entities of a node's participant by their topic names; a thread, woken by a counting semaphore,
-- publishes a sample that announces the nodes of each participant. Other functions turn ROS 2 names
-- into DDS topic and type names.
--
-- Common      shared names: Boolean tests, lists, 32-bit `DDS_Long`, 64-bit `size_t`, C strings,
--             `memcpy` and return codes.
-- Types       the endpoint, the node and the graph (src/adapter_c/graph_impl.h), and the record `Dds`
--             of what the code asks of Connext.
-- Names       RTIROS2_Graph_make_dds_topic_and_type_names and the RTIROS2_Graph_compute_*_names
--             functions (src/adapter_c/graph.c), RTIROS2_Graph_detect_endpoint_type
--             (src/adapter_c/graph_impl.c).
-- InlineList  the inline lists of nodes and endpoints.
-- Handles     RTIROS2_Graph_next_node_handle and RTIROS2_Graph_next_endpoint_handle.
-- Lookup      the RTIROS2_Graph_lookup_* functions.
-- Endpoints   RTIROS2_Graph_register_local_endpoint, RTIROS2_Graph_finalize_endpoint and
--             RTIROS2_Graph_unregister_local_endpoint with its variant by handle.
-- Inspect     RTIROS2_Graph_inspect_local_nodeEA.
-- Nodes       RTIROS2_Graph_register_local_node, RTIROS2_Graph_inspect_local_node,
--             RTIROS2_Graph_unregister_local_node and RTIROS2_Graph_finalize_node.
-- Invariant   the well-formedness of a node and of the graph, kept by each operation.
-- Api         the public functions of src/adapter_c/graph.c on a graph that may be NULL, and
--             sequences of calls of them.
-- Spec        what the public functions promise, as a relation on a map from handles to nodes, each with
--             a map from handles to endpoints; that sequences of calls refine it.
-- Publish     RTIROS2_Graph_node_to_sample, RTIROS2_CGraphSampleAdapter_convert_to_sample and
--             RTIROS2_Graph_gather_domain_participants.
-- Update      RTIROS2_Graph_publish_update, a round of RTIROS2_Graph_update_thread, and the samples
--             behind a sequence of calls.
-- Qos         RTIROS2_Graph_customize_datawriter_qos, RTIROS2_Graph_customize_datareader_qos and
--             RTIROS2_Graph_get_graph_writer_qos.
-- Lifecycle   RTIROS2_Graph_new, RTIROS2_Graph_initialize, RTIROS2_Graph_finalize and
--             RTIROS2_Graph_delete, with the resources that they create and delete.
-- Shutdown    the steps of RTIROS2_Graph_update_thread and of the start of RTIROS2_Graph_finalize.
-- Gids        the RTIROS2_Graph_compute_*_gid and RTIROS2_Graph_get_graph_* functions.
-- Cpp         the C++ API (src/adapter_cpp/graph.cpp): the class Graph with its methods, its sample
--             adapter, and the naming functions; an exception is a result.
-- Tests       a DDS environment and graphs, and each result at one of them.
--
-- An operation takes the graph and answers the graph beside its result; the part of a function that
-- holds the mutex is one step, so the calls of several threads are a sequence of steps. A pointer to
-- a DDS entity is an `Option ℕ`. A pointer to a node or to an endpoint is the value that it points
-- to, and a write through it replaces the entry with its handle, which is that entry since handles
-- are distinct in every graph that the public functions reach. `none` as the result of a function
-- that writes to a buffer or reads through a pointer stands for behaviour that C does not define.
--
-- The search for a handle runs INT_MAX times, as in the source, with the wrap-around of a 32-bit
-- counter; for up to 2^30 - 3 entries this is enough. The other loops follow lists. `size_t`
-- counters are taken modulo 2^64; where one is passed as a `DDS_Long`, as the lengths of the
-- sequences of a sample are, it keeps its 32 low bits, and an index of type `DDS_Long` wraps
-- around. So the results on samples are bounded by 2^31 - 1 nodes, and endpoints of a node.
-- Connext, the buffer pools and the allocation of strings are the fields of `Dds`, of
-- `Publish.Entities`, of `Lifecycle.Libraries` and of records of the C++ API. Nothing is assumed
-- of them but where a theorem names it: that memory suffices (`HasMemory`, `HasRoom`, `CanGrow`,
-- `TakesAll`, `GivesRoom`), that no deletion is refused (`Succeeds`), that the calls of
-- semaphores that end the thread do not fail (`EndsWork`), and that nothing changes while an
-- update is published (`IsQuiet`).
--
-- Not modelled: the clock of the update thread; a take or give of the mutex that fails; in
-- `Update`, a take of `sem_pinfo` that fails, which `Shutdown` has; the end of a DDS entity that
-- a C++ reference keeps, which the counts of references in Connext decide; what else Connext does
-- in the calls, whose answers are arguments of the definitions. The buffer that a node or an
-- endpoint leaves goes back to its pool, and a string of the naming functions is released,
-- without a trace.
pub mod Common
pub mod Types
pub mod Names
pub mod InlineList
pub mod Handles
pub mod Lookup
pub mod Endpoints
pub mod Inspect
pub mod Nodes
pub mod Invariant
pub mod Api
pub mod Publish
pub mod Qos
pub mod Lifecycle
pub mod Update
pub mod Spec
pub mod Tests
pub mod Gids
pub mod Cpp
pub mod Shutdown
