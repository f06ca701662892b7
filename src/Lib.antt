-- ===== src/Lib.antt =====
-- Verification of the ton-net core (core/src): the cells of The Open Network, and the checks by
-- which a client that trusts one block comes to trust a later one.
--
-- A cell is up to 1023 bits and four references, with a hash and a depth for each level of its
-- mask. A builder assembles one, a slice reads one, and dictionaries keep their keys in edge
-- labels. A liteserver answers a client with a chain of links; each is checked by the header and
-- the configuration that its proofs hold and by the weight of the validators who signed.
--
-- Files, with the sources they model:
--   Base                  tests, lists, results, the state monad Exec, bits, words, signed integers
--   Cell/Error            core/src/cell/error.rs
--   Cell/Kind             core/src/cell/cell/exotic.rs
--   Cell/Level            core/src/cell/cell/level.rs, with the leading zeros of a word
--   Cell/Identity         core/src/cell/cell/hash.rs: Identity and its two tables
--   Cell/Hash             core/src/cell/cell/hash.rs: compute; core/src/cell/cell.rs: summarize
--   Cell/Types            core/src/cell/cell.rs, core/src/cell/cell/refs.rs
--   Cell/Data             the bits of a cell's bytes, as core/src/cell/slice.rs reads them
--   Cell/Builder          core/src/cell/builder.rs: the stores of bits and numbers
--   Cell/Assemble         core/src/cell/builder.rs: bytes, references, copies, truncation, build
--   Cell/Slice            core/src/cell/slice.rs
--   Cell/Dict/Label       core/src/cell/dict/label.rs: the label codec
--   Cell/Dict/Key         core/src/cell/dict.rs: keys as bits; core/src/cell/dict/label.rs: Label
--   Cell/Dict/Shape       core/src/cell/dict.rs: Lookup, DictEntry, Shape, leaf, Step
--   Cell/Dict/Walk        core/src/cell/dict.rs: lookup, descend, split, collapse, rebuild
--   Cell/Dict/Plain       core/src/cell/dict/plain.rs: Dict with get, set and remove
--   Cell/Dict/Iter        core/src/cell/dict.rs: walk_step; core/src/cell/dict/plain.rs: DictIter
--   Cell/Dict/Trie        the tree that a dictionary's cells spell, with find, insert and delete
--   Cell/Dict/Node        how a cell is a node of such a tree
--   Cell/Dict/Lookups, Builds, Changes, Maps, Iters, Packed
--                         the walks over the cells against the tree; the packing of keys
--   Proof/Wire            the types of core/src/tl/lite.rs, core/src/tl/signed.rs that a chain holds
--   Proof/Validators      core/src/proof/validators.rs
--   Proof/Weight          core/src/proof/chain.rs: carried_weight
--   Proof/Chain           core/src/proof/chain.rs: verify_chain, verify_link, signed_message
--   Adnl                  core/src/adnl/connection.rs: the session, its queries and its mark
--   Lite                  core/src/lite/types.rs: BlockIdExt, MasterchainInfo, the casts of a height
--   Lite/Session          core/src/lite/client.rs: masterchain_info and block_proof over a session
--   Client/Error          core/src/error.rs; core/src/client.rs: within; the errors of the layers below
--   Client/Sync           core/src/client/sync.rs; core/src/client.rs: sync, last_key_block
--   Examples              the theorems at concrete inputs
-- Below a file stands a folder with its lemmas.
--
-- Functions keep the names of the source. A method that changes its receiver is a program of
-- Base/Exec: it takes the state and returns a result and the next state, which an error keeps as
-- the code left it. A hash is a list of bytes and sha256 is a parameter. What a link's Merkle
-- proofs hold, the messages that are signed and the check of one signature are the record Proofs
-- of Proof/Chain. The session with the server is a type of the caller's choice: the two calls that a
-- walk makes of it, each with the session that it leaves, and the clocks are the record World of
-- Client/Sync. A height is a `u32` in the client and an `i32` on the wire; the casts between them
-- are those of the source, and keep the bits. What lies under a session is the record Layer of
-- Adnl/Connection, and a call that is dropped where it waits returns nothing and leaves the state
-- as it stood there.
--
-- A `usize` is 64 bits wide. The loop of `read_run` over a unary length has a bound of its own,
-- the limit of the label and one more, since the code leaves it when the count passes the limit. A
-- walk over a dictionary spends a bit of the key at each fork, so it is given as many rounds as
-- the key has bits and one more. A label is held as the bits that it spells. The loop of `sync` is
-- given 513 rounds, one more than its own count lets pass. Every other loop is recursion on a
-- count or a list.
--
-- Not modelled: bags of cells, the bulk build, traversal and carving of dictionaries, augmented
-- and prefix dictionaries, Merkle proofs, the TL-B records, the socket, the frame ciphers and the
-- handshake, the reads of the client, addresses and text codecs, and the bindings. A cell is held
-- by value, so the sharing of payloads does not show.
pub mod Base
pub mod Cell
pub mod Proof
pub mod Lite
pub mod Client
pub mod Adnl
pub mod Examples
