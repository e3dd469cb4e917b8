-- ===== src/Lib.antt =====
-- Verification of the OpenTelemetry C wrapper: the parts of the library that keep its own state.
--
-- The parts and how they interact
--   Heap      the C allocator under all of them, behind the OTELC_ macros: live blocks, and an input
--             that says which allocations fail. Every theorem over a heap covers every pattern of
--             failures.
--   TextMap   src/util.cpp, otelc_text_map_new, _add, _free and _destroy: the growable list of
--             strings that carriers and attributes travel in. text_map_new, text_map_add (with
--             the lengths; add_pair is its body behind the null checks), text_map_free and
--             text_map_destroy are the four functions; the structure is the record TextMap, an
--             array is the address of its block and its cells.
--   Handle    include/util.h, struct otel_handle with OTEL_HANDLE_EMPLACE and otel_map_find: the
--             sharded map from identifiers to handles. register_handle, find, erase,
--             for_each_locked, total_map_size and update_peak_size carry the names of the code;
--             each is one critical section of its shard.
--   Registry  src/span.cpp and src/tracer.cpp, the life of span contexts: context_create is
--             otelc_span_context_create, context_new is otel_span_context_new, context_destroy is
--             otel_nolock_span_context_destroy, tracer_register and tracer_unregister are the
--             functions that count tracers and build and tear down the maps. It uses Handle for
--             the maps and Heap for the structures and the handles.
--             Registry.Spans has otel_span_new and otel_nolock_span_destroy over the other map.
--   DbgMem    src/dbg_malloc.cpp, the debugging allocator: the tracking table (Mem), the block
--             headers, and every function, DbgMem.Calls for the entry points. The outcome of
--             the tracker mutex (failed, tracker disabled meanwhile, held) is an input.
--   Naming    src/yaml.cpp, yaml_probe_nstate and yaml_resolve_prefix: which section of the
--             configuration a context name picks. The parsed document is a parameter that says
--             which paths exist.
--   Yaml      src/yaml.cpp on the ryml library, as its tree of nodes: ryml_get_node_by_path, yaml_find,
--             yaml_is_sequence and yaml_get_sequence_len, Yaml.Keys for ryml_find_duplicate_keys,
--             Yaml.Sequences for yaml_get_sequence, which fills a TextMap, and the two functions
--             after it, Yaml.Properties for yaml_get_node_v and yaml_get_node, whose variable
--             arguments are a list of properties. The cutting of a path into its parts, its
--             formatting, strtoll and strtod are parameters.
--   Text      src/util.cpp and include/define.h, otelc_strhex, otelc_strctrl, otelc_strlcpy.
--   Config    src/util.cpp, otelc_load_handle_map_shards, otelc_cfg_validate and the settings that
--             otelc_lib_shutdown restores. It uses Naming for the signals, and its shard count is
--             the argument of the maps of Handle.
--   Mutex     include/util.h, otel_shared_mutex, the lock of the meter's maps: one Move is one access
--             of one thread to writers_pending_ or to the std::shared_mutex, Step lets any thread
--             move, Reach is what they lead to.
--   KeyValue  src/util.cpp, otelc_value_new, _add, _destroy, otelc_kv_new, _add, _destroy,
--             otelc_memdup and otelc_strdup over Heap: an array is its block, its cells and its
--             length. `given` stands for the null checks of the two pointers.
--   Meter     src/meter.cpp and include/meter.h. Meter.Key is the key of an instrument,
--             Meter.Instruments the look-up and the creation (probe_instrument up to the creation
--             mutex, create_locked from there on), Meter.Update the measurements and the callbacks,
--             Meter.Views the views with otel_meter_add_view and the part of otel_meter_start that
--             registers them again, Meter.Run any sequence of these. Mutex is the lock of its maps;
--             the creation mutex makes each step of Meter.Run one critical section. Values and
--             attributes are those of KeyValue.
--   Prelude   the library names that all of them use, Boolean tests and lists over the native
--             numbers.
--
-- Bounds and fuel. The record search of the debugging allocator runs on fuel, the number of
-- records; its loop makes at most that many rounds, and DbgMem.Slots shows that they suffice. All
-- other loops are recursions on the data they walk over. The arithmetic of the debugging allocator
-- is that of 64-bit unsigned numbers, written out; identifiers and counters of the handle maps are
-- unbounded, the count of tracers and the result of otelc_text_map_add are 32-bit ints, as their
-- bits. The count of pending writers is a 32-bit number that wraps; with fewer than 2 ^ 31 threads
-- it never does. A realloc that succeeds moves its block, which is the case that the callers must
-- be ready for.
--
-- Not modelled. The OpenTelemetry SDK, the YAML parsers, the C and the C++ library are parameters
-- or inputs; error messages and debug output have no effect on the state and are left out. The span
-- and logger operations, the exporters and readers of a meter, the processors and samplers have no
-- model here. The memory of the map objects of Registry is the C++ library's: whether there is some
-- is an input, and their blocks are not on the heap. The debugging allocator reads the header below
-- any block: one that the C library has unmapped, where the probe faults, is left out. Of the
-- builds, the one with dynamic, shared handles and with ryml is modelled. That a type of instrument
-- outside the enumeration is the bits of an int is a hypothesis where it matters; the comparison of
-- view names belongs to the SDK and is a parameter that finds a name equal to itself.
pub mod Prelude
pub mod Heap
pub mod TextMap
pub mod Handle
pub mod DbgMem
pub mod Registry
pub mod Naming
pub mod Text
pub mod Config
pub mod Mutex
pub mod KeyValue
pub mod Meter
pub mod Yaml
