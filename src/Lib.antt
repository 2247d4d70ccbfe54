-- ===== src/Lib.antt =====
-- Nyx Darkpool, the TypeScript SDK (packages/sdk) and the demo's library code (apps/demo/src/lib).
-- Traders hold notes, 32-byte Poseidon commitments in the vault program's Merkle tree of depth 20.
-- Orders go to a private rollup (PER) through a session that holds a token; the matching engine
-- publishes a SHA-256 tree over the orders of a batch; the TEE settles a match by a signed payload
-- that the vault checks. A client rebuilds the note tree from the vault's transactions to withdraw.
--
-- Base: numbers, Boolean tests, lists measured by native numbers, integers for JavaScript's signed
--   `bigint` and `number`. Bytes: `Uint8Array` as a list of numbers below 256, words, chunks.
-- Errors: packages/sdk/src/errors.ts. A function that may throw returns a `Result`; messages are not
--   modelled. Exec: async code that changes a session and may throw; an `await` is a plain call.
-- Merkle: the perfect binary tree over a function of leaves, its root, authentication paths, their
--   folding, and why a path binds a leaf. It is the specification of the three tree modules.
-- Shadow: apps/demo/src/lib/dapp/merkle-shadow.ts (`MerkleShadow`).
-- LatestLeaf: apps/demo/src/lib/dapp/merkle-witness.ts (`witnessFromPriorRightPath`), with the level
--   loop of `append_leaf` in programs/vault/src/merkle.rs, whose right path the client is handed.
-- Inclusion: packages/sdk/src/batch/inclusion-proof.ts, the Merkle part.
-- BatchResults: the same file's decoder of the matching engine's account.
-- Field: packages/sdk/src/utxo/note.ts and the field encoding of
--   packages/sdk/src/keys/key-generators.ts.
-- Solana, Wire: what the builders use of @solana/web3.js, and the byte writers `fixed`, `u64LE`, `cat`.
-- VaultClient: packages/sdk/src/idl/vault-client.ts, all builders.
-- MatchingEngine: packages/sdk/src/idl/matching-engine-client.ts, all builders.
-- Settlement: packages/sdk/src/settlement/settle-builder.ts.
-- Session: packages/sdk/src/per/session-manager.ts and attestation.ts, over a server that answers as
--   it likes and sees every request before.
-- Orders: packages/sdk/src/orders/submit-order.ts and cancel-order.ts, over any session manager.
-- History: apps/demo/src/lib/dapp/vault-leaf-history.ts, which reads the leaves that VaultClient's
--   deposits and Settlement's settlements put into the tree that Shadow rebuilds.
-- Kmac, Keys: packages/sdk/src/keys: KMAC's encodings, HKDF, the derived keys, rotation, viewing keys,
--   the user commitment, and where the master seed comes from.
-- Client: packages/sdk/src/client.ts and providers.ts: the client over a world that its providers read
--   and change, with the seed that it keeps.
-- Deposit, Withdraw: packages/sdk/src/utxo/deposit.ts and withdraw.ts, the staged pipelines over Client;
--   what Deposit sends is what History replays, what Withdraw sends is what the prover proved.
-- Groth16: packages/sdk/src/zk/groth16-format.ts.
-- Watcher: packages/sdk/src/settlement/settlement-watcher.ts.
-- ErClient: packages/sdk/src/idl/er-client.ts, with the wait for an account of L1 under a clock.
-- ChangeNote, TradeSettle: apps/demo/src/lib/dapp/change-note-derive.ts and run-trade-l1-settle.ts, which
--   reads a match with BatchResults, settles it with Settlement and replays it with History and Shadow.
-- DemoSetup: apps/demo/src/lib/dapp/ensure-zero-fee.ts, ensure-market-delegated.ts, persona-client.ts.
-- Decimals: apps/demo/src/lib/dapp/decimals.ts: `toAtoms` and `fromAtoms`, texts as character codes.
-- Examples: concrete inputs.
--
-- Parameters: Poseidon (circomlibjs), with results below the field modulus; SHA-256 and the Ed25519
-- program's id; `findProgramAddressSync`; the RPC connection, base58 and the parser of addresses; the
-- PER server, the signer and the attestation verifier; HMAC-SHA256, SHAKE256 and SHA-512; the client's
-- providers, its prover and the callbacks; the connections, the timer, the TEE's signature and the ids of
-- the rollup's programs.
--
-- Loops over arrays are structural recursion. These run on fuel: `small_depth_loop` and
-- `target_loop` double until they reach the number of leaves, which bounds their rounds; the level
-- loops of Inclusion halve a level, whose length bounds them; `fetch_loop` adds a signature in each
-- round that goes on, so that `hard_cap` bounds it; `expand_loop` adds a byte at least, so that the
-- length asked for bounds it; `unshift_loop` divides by 256 and is bounded by its number; `wait_loop`
-- pauses for a millisecond at least in each round that goes on, so that the timeout bounds it; a
-- number has at most as many digits as its value, which bounds `print_loop`. A `fetch_loop` or a
-- `wait_loop` that is out of fuel is `none`, which is neither a result nor an exception. Array reads that
-- JavaScript would answer with `undefined` end in an exception of the model. 64-bit words are written
-- modulo 2 ^ 64, as `setBigUint64` does; `small <<= 1` is exact below 2 ^ 31, far above a tree of
-- depth 20.
--
-- Not modelled: the provers, which call snarkjs; `formatAtoms`, whose separators are the runtime's;
-- the demo's routes, its wallet, devnet and address helpers and its user interface; the Rust
-- programs and the circuits, but for the append loop named above.
pub mod Base
pub mod Merkle
pub mod Errors
pub mod Bytes
pub mod Shadow
pub mod LatestLeaf
pub mod Inclusion
pub mod BatchResults
pub mod Solana
pub mod Wire
pub mod Settlement
pub mod Exec
pub mod Kmac
pub mod Keys
pub mod Client
pub mod Deposit
pub mod Groth16
pub mod Withdraw
pub mod Watcher
pub mod ErClient
pub mod ChangeNote
pub mod TradeSettle
pub mod Decimals
pub mod DemoSetup
pub mod Session
pub mod MatchingEngine
pub mod Orders
pub mod Field
pub mod VaultClient
pub mod History
pub mod Examples
