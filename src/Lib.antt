-- ===== src/Lib.antt =====
-- ai-ontology: an ontology graph kept in memory, and the segment files that make it durable.
--
-- The program reads documents, keeps typed concepts and relations under an ontology, and journals
-- every change before it applies it. Three parts are modelled here.
--
-- Segment models crates/storage/src/segment, the files of the store:
--   Segment.Bytes   format.rs: `FormatError`, `need`, `u16_at`, `u32_at`, `u64_at`, byte buffers
--   Segment.Kind    format.rs: `Kind` and its byte
--   Segment.Header  format.rs: `DataHeader`, `IdxHeader`, their `encode` and `decode`
--   Segment.Record  format.rs: `RecordHeader`, `encode_record`, `decode_record`, `record_span`
--   Segment.Index   format.rs: `IdxEntry`, `file_offset`, `count_in`, `pack_endpoints`
--   Segment.Recover recover.rs: `recover_segment`; its children hold the proofs about the scan, the
--                   log of complete records, a torn tail and damage in the middle
--   Segment.Active  active.rs: `ActiveSegment`, with `create`, `append_with_codec`, `commit`, `seal`;
--                   its children relate it to a log of records and to what a crash leaves
--   Segment.Sealed  sealed.rs: `SealedSegment`, with `open`, `entry`, `find_seq`
-- Storage models the rest of crates/storage/src that is about records and books:
--   Storage.Log       log.rs: `RecordKind`, `LogRecord`; format.rs: `Kind::of`, `RecordMeta`
--   Storage.Mirror    codec.rs: the types that postcard writes and the conversions
--   Storage.Codec     codec.rs: `encode`, `decode`, `check_finite`
--   Storage.Manifest  manifest.rs: `Manifest`, the ids of domains, the symbols of relation types;
--                     Manifest.Frozen: runs of the operations on them
--   Storage.Budget    budget.rs: estimates; Budget.Plan: `plan_load`, `check_fits`, where `none` is the
--                     panic of `unreachable!`; Budget.Account: what the domains that are loaded cost
-- Graph models crates/graph/src:
--   Graph.Ids       id.rs: `IdAllocator`
--   Graph.Model     model.rs and error.rs: entities and errors
--   Graph.Schema    schema.rs: `Ontology` and its operations
--   Graph.State     graph.rs: the fields of `OntologyGraph`, `get_concept`, the generations
--   Graph.Payloads  graph.rs: `set_loc`, `partition_sealed`; Payloads.Run: runs of the operations on
--                   slots; Payloads.Kept: runs in which callers name places that can be read
--   Graph.Concepts  graph.rs: `prepare_concept`; Concepts.Apply: `apply_prepared_concept`,
--                   `upsert_concept`, `apply_concept_update`
--   Graph.Relations graph.rs: `prepare_relation`, `apply_prepared_relation`, `insert_relation_exact`,
--                   `apply_relation_update`
--   Graph.Removal   graph.rs: `remove_relation`, `remove_concept`, `incident_relation_ids`
--   Graph.Listing   graph.rs: the ordered listings of rules and actions
--   Graph.Rules, Graph.Actions
--                   graph.rs: `prepare_rule`, `apply_prepared_rule`, `update_rule`, `remove_rule` and
--                   the same for actions; Run: runs of these operations
--   Graph.Traversal traversal.rs: `closure`; graph.rs: `outgoing_typed`, `incoming_typed`
-- Common holds what all share: tests on numbers, lists, keys, maps, sets and results. The modules
-- named Examples apply the theorems to small inputs.
--
-- A method is a function from the state to its result and the new state. An error that leaves the
-- state as it was is a `Result`; where the program consumes an id although it then fails, the new
-- state stands beside the result. Locks and atomics are plain fields: an operation runs alone.
-- Hash maps are association lists in which a key stands once; their laws are those of Common.Map.
-- Machine integers are natural numbers, their wrap-around written out. Byte slices are lists of
-- numbers.
--
-- Code of other packages is a parameter: `crc32c`, `to_lowercase`, the JSON and postcard formats, the
-- order of strings, what is computed in floating point (a float is its bits), the source of evicted
-- payloads, and `resolve`, by which the store turns a payload into index fields. A crash leaves of the
-- data file the bytes that were synced and a front of those written since.
--
-- Bounds: the loops over the chain of parents in schema.rs stop by themselves after as many steps as
-- there are types; the model counts the same steps. The scan of recover.rs takes as fuel the length
-- of the file, and every round passes at least 32 bytes. The binary search of sealed.rs takes as fuel
-- the number of entries, and every round drops at least one. The search of `closure` takes one more
-- than the number of ends of relations, and queues no concept twice.
--
-- Not modelled: reading and writing of files (recovery maps the bytes of the two files to their new
-- bytes, and no such call fails), log messages, name trigrams, pages of listings, bulk loads, the
-- other searches of traversal.rs, the store that routes records to segments, and the parts of the
-- repository beside these two crates.
pub mod Common
pub mod Segment
pub mod Graph
pub mod Storage
