-- ===== src/Lib.antt =====
-- NimbusStore (the code's namespace is `nebulastore`): an object store with an S3 gateway whose
-- metadata is kept in RocksDB, and a file system metadata service beside it.
--
-- Parts and files:
-- * Base, Bytes: numbers, lists, and byte strings (`std::string`) with the order of `operator<` and
--   the encodings of words in bytes, little-endian for records and big-endian for ordered keys.
-- * OrderedMap, Rocksdb: the ordered map that a database is, the calls of the RocksDB library that
--   the sources make as an interface (a parameter), and a database in memory that meets it, for
--   the examples.
-- * S3 (include/nebulastore/protocol/s3_*.h): Encoding and Meta are the records and their bytes,
--   Backend the class `MetadataBackend` and `RocksDBBackend`, Store the class `S3MetadataStore`,
--   Types, Router and Xml the requests, `S3Router` and `S3XMLFormatter`, Platform what the handlers
--   call outside the repository (files, MD5, clocks), Handler the class `S3Handler`.
--   A request goes through `S3Router::ParseRequest`, `S3Handler::Handle` chooses a handler, the
--   handler reads and writes the metadata through the store and the content through the files.
-- * SliceTree (include/nebulastore/metadata/slice_tree.h, src/metadata/slice_tree.cpp): the tree of
--   a file's slices, in which a write cuts what it covers.
-- * Metadata (include/nebulastore/metadata/metadata_service.h,
--   src/metadata/metadata_service_impl.cpp, src/metadata/metadata_partition.cpp,
--   include/nebulastore/common/types.h): paths, inodes and directory entries, `MetaPartition` and
--   `MetadataServiceImpl`. Interface is the class `MetadataService`, and RocksdbStore the store of
--   inodes in RocksDB (src/metadata/rocksdb_store.cpp), byte by byte as its casts make it.
-- * Engine (include/nebulastore/metadata/meta_engine.h): `KVMetaEngine` over the class `KVClient`,
--   which is an interface, and `RocksDBKVClient`.
-- * Storage (include/nebulastore/storage/backend.h): the class `StorageBackend`, an interface.
--   Local is `LocalBackend` (src/storage/local_backend.cpp) over a file system, an interface too.
-- * Namespace (src/namespace/service.cpp): the names of a path for S3 and for POSIX, and
--   `NamespaceService`, which reads and writes files through a metadata service and a backend.
-- * IoRing (include/nebulastore/usrbio/ioring.h): the ring buffers and the submissions.
-- * Sync (include/nebulastore/common/semaphore.h): the semaphore of coroutines, as a step relation.
-- * Gateway (src/protocol/s3_gateway.cpp): the second S3 gateway, over the namespace service.
--
-- State is passed explicitly: a backend's function takes the database and returns it beside the
-- result, a handler takes the metadata and the file system. An exception of the library ends a
-- handler with `threw`. Words are natural numbers with `% 2 ^ w` where the code can wrap. Loops are
-- structural recursion over the bytes, the entries or the counter; only the loop of
-- `ParseQueryString` runs on fuel, of which the length of the text is enough. The count of the
-- semaphore, an `int`, is taken as a number that neither overflows nor starts below 0.
--
-- The class `MetadataStore` is an interface to the metadata service; the theorems on the service
-- take the behaviour that it asks for as a hypothesis, which Metadata/RocksdbStore/Laws shows of
-- `RocksDBStore`: inodes below 2^31, words of 32 bits, and times as its decoding shows them.
--
-- Where the language leaves a result undefined, a shift of an `int` by 32 and more is a parameter,
-- and the doubled `max_keys` of `ListObjects` wraps. A write that a file stream loses when it is
-- closed is told apart from the stream's state before, which is all that the code tests. A buffer
-- that is longer than a `std::vector` can be throws.
--
-- Not modelled: the vendored HTTP server, sockets and event loop, loggers and configuration,
-- coroutines as a scheduler, the storage backend for the cloud and the FUSE client,
-- which are input and output; src/metadata/rocksdb_codec.cpp, which nothing declares, compiles or
-- calls; the B-tree index, the bounded queue and the single
-- flight.
mod Base
pub mod Bytes
pub mod Engine
pub mod Gateway
pub mod IoRing
pub mod Metadata
pub mod Namespace
pub mod OrderedMap
pub mod Rocksdb
pub mod S3
pub mod SliceTree
pub mod Storage
pub mod Sync
