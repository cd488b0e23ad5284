-- ===== src/Lib.antt =====
-- MosaicDB: a key-value store on a log-structured merge tree, with tables and SQL on top.
--
-- The program. Writes go to a write-ahead log and to a table in memory. A full table in memory is
-- written to a sorted file with a sparse index and a Bloom filter, and the log is emptied; compaction
-- merges the files. The relational layer stores table schemas and rows as values of the store; the
-- SQL layer splits a text into tokens, parses one statement and executes it on the catalog and the
-- store; the server receives requests of its binary protocol and hands them to the store or to SQL.
--
-- Which file models what. A file stands beside a folder of its name, which holds the proofs about it
-- and its test runs (Tests).
--   Encoding      include/mosaicdb/common.h: `encode_u32_le` and its kin, `CRC32` (Encoding/Crc),
--                 `Status`, `OpType`, `Record`. Encoding/Reads is `p[pos++]`, `read_u32` and
--                 `read_string` of the deserialisers.
--   Text, StdMap  the language's `std::string` order and `std::map`, as the program uses them
--   MemTable      include/mosaicdb/memtable.h, src/storage/memtable.cpp: each method by its name
--   Wal           include/mosaicdb/wal.h, src/storage/wal.cpp: `append` is `record_payload` and
--                 `write_record`; a round of `recover` is `next_record`
--   BloomFilter   include/mosaicdb/bloom_filter.h, src/index/bloom_filter.cpp
--   SsTable       include/mosaicdb/sstable.h, src/storage/sstable.cpp: `SSTableWriter::build` in
--                 SsTable/Writer, the constructor of `SSTableReader` in SsTable/Reader, and `get`,
--                 `scan`, `scan_from` and `read_all_entries` in SsTable/Queries
--   Compaction    include/mosaicdb/compaction.h, src/compaction/compaction.cpp: the loop over the
--                 inputs is `merge`, the entries written are `result_entries`
--   Engine        include/mosaicdb/storage_engine.h, src/engine/storage_engine.cpp: each method by its
--                 name; what follows a flush in `put` is `put_flushed`. Engine/View says what is held
--                 for a key, Engine/Keeps is about flush and compaction, Engine/Restart about the log.
--                 Engine/Loading is the constructor and `load_sstables`, over a list of files.
--   Catalog       include/mosaicdb/catalog.h, src/relational/catalog.cpp: each method by its name, over
--                 Engine; Catalog/Keys is about the keys of the rows,
--                 Catalog/Tables about the entry of a table in the store
--   Types         include/mosaicdb/types.h: `Value` and its comparisons; Types/Print is `to_string`
--   Schema        include/mosaicdb/schema.h
--   Row           include/mosaicdb/row.h, src/relational/row.cpp
--   SqlTokenizer  include/mosaicdb/sql_tokenizer.h, src/sql/sql_tokenizer.cpp: each method by its name;
--                 a round of `tokenize` is `tokenize_round`, its if-chain `scan_token`
--   SqlParser     include/mosaicdb/sql_parser.h (SqlParser/Syntax), src/sql/sql_parser.cpp: each method
--                 by its name; `tokens_` and `pos_` are SqlParser/Cursor, the loops of
--                 `parse_create_table` SqlParser/Columns, values and clauses SqlParser/Values;
--                 SqlParser/Balanced is about WHERE clauses, SqlParser/Progress about the loops
--   Executor      include/mosaicdb/executor.h, src/sql/executor.cpp: each method by its name; the body
--                 of `exec_insert` is `insert_row` of Executor/Insert, the loops over the rows of a
--                 table are Executor/Rows, clauses and conversions Executor/Values;
--                 Executor/Duplicates is about the primary key of a stored row
--   Query         include/mosaicdb/query.h, src/query/query.cpp
--   Server        include/mosaicdb/server.h, src/network/server.cpp: `handle_client` in three parts,
--                 `recv_request`, `dispatch` and `send_reply`; `recv_all` and `send_all` in
--                 Server/Sockets. Server/Client is client/mosaic_client.py.
--   Cli           client/cli.cpp: the body of its loop is `session`, with `print_result`
-- Common has the shared names, the integers of fixed width (`u8`, `u32`, `u64`, `add_u64`), lists
-- measured by native numbers, and reads of an exact number of bytes.
--
-- How state and calls are modelled. A string is the list of its bytes. A method that changes an
-- object returns the new object. A file is its bytes, and what the operating system answers to
-- `write`, `fsync` and `ftruncate` is an argument, so that a theorem about `append` speaks of every
-- way in which writes are cut or fail. Machine integers wrap where the source's types do. A read
-- that the source makes past the end of a buffer, and a copy past its end, is `none`. A double is
-- its 64 bits. A lock is held by each method from start to end, so a method is one step.
--
-- Fuel. The loop of `Wal.recover` runs on fuel of one more than the bytes of the log: a round takes
-- thirteen bytes at least. The reader's loops over the entries of a sorted file have fuel of one more
-- than the bytes ahead, of which a round takes eight; its binary search has one more than the index
-- entries. `tokenize` has one more than the bytes of its text, of which a token takes one; each loop
-- of the parser has one more than the tokens that are left, of which a round takes one; the loop for
-- a client takes nine bytes for each request. All other loops are structural.
--
-- The SQL layer. An exception is a result `raised` with its text; that of a number is the name of the
-- function, as in libstdc++. `std::stod`, the conversions between `double` and `int64_t`, the text of
-- a `double` and `std::sort` on rows are arguments; `std::stoll`, `std::stoi`, `std::stoull` and
-- `std::to_string` on integers are defined in Common/Ascii.
--
-- An offset of 2^63 or more, which `fseek` refuses, ends a query of a sorted file with `none`.
--
-- What is not modelled: the answers of `fwrite`, which the source ignores; the file system, so that
-- no file is removed, neither after a compaction nor for a bad footer at a start; opening and closing
-- files; the sockets' set-up, `accept_loop` and the threads of the server, so that one
-- client is served at a time; the main function of the server's program.
pub mod Common
pub mod Encoding
pub mod Text
pub mod StdMap
pub mod MemTable
pub mod Wal
pub mod BloomFilter
pub mod Types
pub mod Schema
pub mod Row
pub mod SsTable
pub mod Compaction
pub mod Engine
pub mod Catalog
pub mod SqlTokenizer
pub mod SqlParser
pub mod Executor
pub mod Query
pub mod Server
pub mod Cli
