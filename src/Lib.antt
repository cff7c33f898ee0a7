-- ===== src/Lib.antt =====
-- aof-db keeps a database as an append-only log of operations. This library is about the Python
-- engine, python/nedb: it translates the engine's parts into definitions and proves what makes each
-- part correct.
--
-- The parts, and where they stand:
--
--   Log        python/nedb/log.py. `OpLog` is the source of truth: every mutation is an op that
--              `append` chains to the one before by hash, behind a nonce per client and a table of
--              idempotency keys. `load` rebuilds the log from its ops on a restart, `verify` walks
--              the chain. Log/Later is about the logs that calls of `append` lead to, Log/Tamper
--              about what a head commits to, Log/Slice about slice_until, and Log/Heal about
--              `NEDB._self_heal_if_needed` of python/nedb/engine.py, as it acts on the log.
--   Store      python/nedb/store.py. The versioned store that ops are folded into, with reads as of
--              a seq by bisection.
--   Relations  python/nedb/relations.py. The graph that ops are folded into: two adjacency dicts,
--              read as of a seq.
--   Merkle     python/nedb/merkle.py. Roots, inclusion proofs and their verification for the chunks
--              of a file version.
--   Proof      python/nedb/proof.py and the proof endpoint of python/nedb/server.py: inclusion
--              proofs over the op hashes of a log.
--   Query      python/nedb/query.py. The plans of NQL, the parser from tokens to a plan, the fluent
--              builder. Query/Print holds the canonical tokens of a plan.
--   Index      python/nedb/index.py. The equality, ordered and full-text indexes, which ops are folded
--              into as well. Index/Lookup and Index/Others are about the lookups of an
--              equality index.
--   Engine     python/nedb/engine.py. `apply_op` folds an op into the store, the graph, the indexes
--              and the map of causes; Engine/Mutations has put, delete, link, unlink and the
--              end of put_file, each of which takes a nonce, appends an op to the log and folds it. Engine/Recovery is
--              about reopening a log (`_load` without a snapshot), Engine/AsOf about reads of the
--              past, Engine/Determinism about `rebuild`, Engine/Errors about calls that
--              raise, Engine/Files about put_file with the blob store of its tier.
--   Execute    `NEDB.execute` of python/nedb/engine.py and `cmp` of python/nedb/query.py: the candidates
--              of a plan and the rows that pass its conditions, in Execute/Traverse ORDER BY, TRAVERSE,
--              LIMIT and VALID AS OF, in Execute/Trace TRACE and in Execute/Groups GROUP BY.
--              Execute/Listing and Execute/Reach are about what the equality indexes list,
--              Execute/Scan and Execute/Found about the rows.
--   Sequencer  python/nedb/concurrent.py. The steps of writers and of the committer over the engine, and
--              the reads pinned to the committed seq. Sequencer/Snapshot is about what a reader sees.
--   Cascade    python/nedb/cascade.py. Content-defined chunking and the blob store that put_file keeps
--              the bytes in. Cascade/Chunking is about the chunks, Cascade/Contents about the table of
--              chunks, Cascade/Files about versions of files, Cascade/Proofs about file_proof.
--   Crypto     python/nedb/crypto.py. The data key with its wrapping under a master key, and the encoding
--              of lines, snapshots and chunks. Crypto/Keys is about rotation, Crypto/Envelopes about
--              what is encoded.
--   Persist    The append-only file of python/nedb/engine.py, with to_dict and from_dict of python/nedb/log.py.
--              Persist/Files writes and opens it, Persist/Lines is about one line, Persist/Crash about
--              a file that is cut at any byte, Persist/Seal about turning encryption on and off.
--   Snapshot   python/nedb/snapshot.py: the store and the relations that a checkpoint saves, and the branch of
--              `_load` of python/nedb/engine.py that goes on from it. Snapshot/Documents and Snapshot/Edges
--              are about what is saved and loaded, Snapshot/Kept about the dicts that every op keeps in
--              shape, Snapshot/Resume and Snapshot/Opening about the open.
--   Resp       python/nedb/resp2.py: the encoding of bulk strings and arrays, in Resp/Reader the reader of
--              commands. Resp/RoundTrip is about a pipeline of commands.
--   AutoIndex  python/nedb/autoindex.py: the tallies by which indexes are made. AutoIndex/Threshold is about
--              when.
--   Sql        python/nedb/sql.py. The parser of SQL from tokens, the NQL text of a SELECT and the call
--              of the database that INSERT, UPDATE and DELETE make. Sql/Print holds the tokens of a
--              WHERE clause; Sql/Inserts, Sql/Updates and Sql/Deletes are about the statements that write.
--   Hex, Hash  bytes.hex and bytes.fromhex, and hashlib.blake2b as a parameter.
--   Prelude    Boolean tests, lists, dicts in insertion order, texts.
--
-- A component's file holds the definitions, one for each method or loop of the source under its name;
-- the proofs stand in its child modules, and concrete runs in its Tests. State is passed: a method
-- that changes `self` takes the record of the object and returns the new one. A dict is an association
-- list in the order of insertion. An exception is a constructor of the result type or none. A
-- generator expression or loop is a recursive function with the suffix _loop, or has the name of what
-- it makes.
--
-- blake2b is the parameter `Blake`: a function to digests of 32 bytes. Nothing says that it has no
-- collision; where the source relies on that, the theorem's other case is a collision between two of
-- the inputs that the code itself has hashed there, which `Collision` and `Clashes` name.
-- `canon`, the JSON encoding of an op's body, is an arbitrary function in the parameter `Codec`: what a
-- hash commits to is the encoding of the body. Payloads and floats are type parameters of the log.
--
-- What Python does with the values of a document (==, hash, isinstance, bisect.insort) and with floats
-- is the parameter `Values`. After a TypeError the materialized state may be changed in part; that
-- partial state is not modelled, only the log is kept.
--
-- `execute` reads a plan with the values of a document in it. None, the comparisons of two values and
-- `list.sort` are the parameter `Comparisons`, and sums and means the parameter `Arithmetic`. A set is
-- a list, iterated in its order.
--
-- The loops of TRACE take the number of rows and ops as fuel, since a seq is followed once.
--
-- A file is the text that is decoded from it. AES-GCM, HKDF and base64 are the parameter `Ciphers` and
-- `json` is the parameter `Json`; what they promise is in `IsSound`, `IsObject` and `Reads`. What
-- `os.urandom` returns is an argument.
--
-- A compression library is the parameter `Compressor`, with the law that decompress undoes compress.
-- `chunk` takes the number of bytes as fuel, since every chunk has at least one byte.
--
-- The loops of the SQL parser take the number of tokens as fuel, since each round takes a token; `int`,
-- `float` and `str` of a number's lexeme are the parameter `Numbers`, and texts are ASCII.
--
-- The loop that reads RESP2 commands takes one more than the number of bytes as fuel, since each round
-- reads a byte. `str`, `int`, `encode`, `decode` and `upper` are its parameter `Texts`.
--
-- The loops of merkle_root and merkle_proof take the number of leaves as fuel, which is enough since a
-- level halves, and bisect_right takes the length of the list, as its interval shrinks. The theorems
-- on them have no case where the fuel runs out.
--
-- Seqs and nonces are natural numbers of any size, as Python's are, and a nonce below 0 is refused as
-- 0 is. Not modelled: the lexers of NQL and of SQL, which are regular expressions; create_index on a
-- database that has documents, expiry, the blobs of a snapshot; fsync and sockets, the
-- retry of a read while another thread writes, the HTTP and MongoDB servers and the
-- Redis adapters. Store/Bisect is about bisect.bisect_right of the standard library, which is a helper
-- of the store.
pub mod Prelude
pub mod Store
pub mod Relations
pub mod Hex
pub mod Hash
pub mod Merkle
pub mod Proof
pub mod Log
pub mod Query
pub mod Index
pub mod Engine
pub mod Execute
pub mod Sequencer
pub mod Cascade
pub mod Crypto
pub mod Persist
pub mod Snapshot
pub mod Resp
pub mod AutoIndex
pub mod Sql
