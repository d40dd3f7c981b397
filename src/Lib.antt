-- ===== src/Lib.antt =====
-- Verification library of bitrst, a Bitcoin node written in Rust. The program is a workspace of
-- crates: crates/bitrst-core holds the data types, their wire formats, the unspent outputs, the
-- chain and the mempool; crates/bitrst-script runs scripts; crates/bitrst-crypto wraps the hash
-- functions and signatures; crates/bitrst-net is the network; other crates are the wallet, the miner and the binary.
-- The library models the parts of bitrst-core, bitrst-script and bitrst-crypto that decide what
-- a valid transaction and a valid block are, and the pools and journals that keep them.
--
-- How the parts interact: bytes from a peer become transactions and blocks (Wire, Transaction,
-- Block), a block commits to its transactions (Merkle), a transaction spends and creates outputs
-- (Utxo), the spends are unlocked by scripts (Script) over a hash of the transaction (Sighash),
-- a block carries proof of work against a compact target (Work), a transaction that waits for a
-- block stays in the pool (Mempool), a block that passes joins the chain (Chain), and what happens
-- to the chain is reported in bounded journals (Journal).
--
-- Base          Shared helpers: Boolean tests on numbers, lists measured by native numbers, the
--               `?` operator on Result and Option, i32 in two's complement, hash maps as
--               association lists, equality of byte strings.
-- Limits        crates/bitrst-core/src/limits.rs, the constants that the modelled code uses.
-- Crypto        crates/bitrst-crypto/src/sha256d.rs, hash160.rs, ecdsa.rs. SHA-256, RIPEMD-160
--               and ECDSA verification belong to other crates: they are the fields of the record
--               Primitives, whose laws are the sizes of the digests and nothing else.
-- Wire          crates/bitrst-core/src/wire.rs. WireReader is the record of the same name; a read
--               is a function from it to a result and the reader behind what was read. CompactSize
--               models write_compact_size and compact_size_encoded_len of transaction.rs.
-- Transaction   crates/bitrst-core/src/transaction.rs, function by function.
-- Block         crates/bitrst-core/src/block.rs, function by function.
-- Merkle        crates/bitrst-core/src/merkle.rs. The level loop runs on fuel, one round for each
--               hash; a level of two or more hashes has a shorter one above it.
-- Utxo          crates/bitrst-core/src/utxo.rs: the set, validation, application and undo.
-- Script        crates/bitrst-script/src: opcodes.rs, stack.rs, interpreter.rs, p2pkh.rs. The loop
--               over a script runs on fuel, one round for each byte; a round takes the opcode at
--               least.
-- Sighash       crates/bitrst-core/src/sighash.rs.
-- Work          Uint256 is crates/bitrst-core/src/uint256.rs, Target is pow.rs, Difficulty is
--               difficulty.rs and time.rs. Where the source adds two bytes the sum wraps, as it
--               does in a build without overflow checks. The adjustment interval is that of a
--               build without the feature test-short-period.
-- Store         crates/bitrst-core/src/store.rs, the errors and the store in memory.
-- Chain         crates/bitrst-core/src/chain.rs. Types has the state, Validate and Header the checks
--               on a block, Reads the accessors, Attach what goes on and off the active chain,
--               Reorg, Orphans and Connect the methods of these names. A method that changes the
--               chain is a function from the chain to the chain and a result (Action); a result is
--               a value, an error of the source, a panic, or a lack of fuel. The walk to the fork
--               runs on the height of the parent and two, as heights fall along it; the loop that
--               takes blocks off on the number of blocks and one; the loop over the orphans on
--               their number, as each is taken out of the pool once. The active blocks are a list
--               with the tip first.
-- Mempool       crates/bitrst-core/src/mempool.rs: Types has the state, Validate the checks on a
--               transaction, Pool admission and eviction. make_room_for runs on fuel, one round
--               for each entry and one more; a round removes an entry. The search for
--               descendants runs on one round for each spend and one for the root; an owner
--               enters its stack once. Sync brings the pool in line with the chain; each of its
--               loops runs on one round for each entry or candidate and one more.
-- Journal       Events is crates/bitrst-core/src/chain_events.rs, Log is chain_event_journal.rs,
--               Disconnected is disconnected_block_journal.rs.
-- Net           crates/bitrst-net/src. Types is message.rs, error.rs and constants.rs; Envelope is
--               envelope.rs; Fields, Codec and Utf8 are codec/, where a string of Rust is the list of
--               its bytes; Framing is framing.rs, over the reads that a socket gives; Handshake is
--               handshake.rs with the state as an argument and a result; Requests has the trackers of
--               relay.rs and the slots of inbound_capacity.rs; Relay and Handlers are the handlers of
--               relay.rs, on a node that has a chain, a mempool and the state of a peer. The time is an
--               argument. Protocol says which messages move a handshake on.
-- Tests         Runs at concrete inputs, with computable hash functions in place of SHA-256 and
--               RIPEMD-160.
--
-- Numbers are natural numbers. The types of Rust are written out: IsByte and IsArray for bytes and
-- arrays, IsTransaction and IsBlock for the fields of a transaction and a block, `% 2 ^ w` where
-- the source wraps or casts, and a test against `2 ^ w` where it checks or saturates. `usize` has
-- 64 bits. A hash map or set that the source iterates over in an order of its own is a list; no
-- result that is stated depends on the order.
--
-- Not modelled: the handles that lock the chain and the mempool (chain_handle.rs,
-- mempool_handle.rs), block storage on disk (store/), the peers of crates/bitrst-net,
-- crates/bitrst-wallet, crates/bitrst-miner, the binary, Base58Check and signing. A socket is what
-- its reads give, one after the other; threads, locks and files do not occur in what is modelled.
pub mod Base
pub mod Wire
pub mod Limits
pub mod Crypto
pub mod Transaction
pub mod Merkle
pub mod Block
pub mod Utxo
pub mod Work
pub mod Sighash
pub mod Store
pub mod Chain
pub mod Mempool
pub mod Script
pub mod Journal
pub mod Net
pub mod Tests
