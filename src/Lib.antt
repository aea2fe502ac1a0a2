-- ===== src/Lib.antt =====
-- Verification of the state machine of qwid-node: the EVM state, accounts, staking, votes, the price
-- oracle, transactions and their pool, recovery transactions, blocks with their checks and their
-- randomness, and the state root.
--
-- The node keeps its consensus state in Go maps under package-level variables. A block changes them
-- through the operations of `account`, `voting` and `core/stateDB`, with the price of `oracles` and the
-- randomness of `blocks`; transactions, whose bytes `transactionsDefinition` reads, wait in
-- `transactionsPool`. A block commits to its parent's state by the state root. The services around
-- these packages move blocks and transactions and are not modelled. Each operation is a function that
-- takes the state and returns the new one, with an error as the value `err`.
--
-- Which file models which part:
--   Base, Types        int64 with its wrap-around, Go maps as tables or functions, byte arrays; the
--                      records Account (account/baseAccount.go) and Log (core/types/log.go)
--   Wire, Delegated    common/types.go and common/helper.go, account/helper.go: the encodings of
--                      integers, of length-prefixed bytes, addresses, signatures and hashes, and
--                      the addresses of delegated accounts
--   StateDb            core/stateDB/methods.go and journal.go: the record StateAccount with its
--                      journal (`ChangeEntry`, `revert`), in Methods accounts, codes, nonces and
--                      balances, in Storage slots, self-destructs, access lists and logs. The EVM
--                      reaches it by the calls of the data type `Call`. It writes native balances
--                      through account.SetBalance, which is the field `native` here.
--   Recovery           account/recovery.go: commitments that mature, and binds that expire
--   Voting             voting/votingEncryptionSchemes.go: votes of delegated accounts for the
--                      signature schemes, weighed by the stake that the caller gives
--   Staking            account/stakeAccount.go and account/accountsStakingStates.go: staking, locks,
--                      unstaking, rewards (Scan, Changes), the totals and the eligible accounts
--                      (Eligible), operators and their RANDAO commitments (Nodes)
--   Supply             account/reward.go
--   Oracles            oracles/oraclesDefinition.go: price submissions, the price data of a block,
--                      the median, the check of a block's price, and the price that
--                      services/blockCreation.go puts into a block (Prices)
--   Hashes, Merkle     transactionsPool/merkleTree.go: the tree over the transaction hashes; what
--                      its root alone binds is in Merkle.Roots
--   Blocks             blocks/baseBlock.go and blocks/Block.go: headers, blocks and their bytes
--   Randao             blocks/randao.go, wallet/randao.go and randaoForBlock of
--                      services/blockCreation.go: commitments, reveals and the mix; a producer's
--                      commitment is kept with its staking account (Staking.Nodes)
--   Checks             blocks/processBlock.go: `CheckBaseBlock` and the checks of times and of
--                      transaction hashes; blocks/proofOfSynergy.go: the difficulty;
--                      blocks/blockAccountState.go: `AddBalance` and the supplies. The block hash is
--                      that of blocks/Block.go, the header's and the body's of blocks/baseBlock.go
--   StateRoot          blocks/stateRoot.go: the canonical walk over the maps of account, dexAccount.go
--                      and stateDB, the root, its check, and the marker of a height in the database
--   Transactions       transactionsDefinition/baseTransaction.go, tx.go and transaction.go: the
--                      records, their bytes and the hash (Bytes, Reading); common/recovery.go and
--                      transactionsDefinition/recovery.go: the hashes and the data of recovery
--                      transactions (Secrets, Recovering) and verifyRecoveryReveal (Reveals), which
--                      reads the commitments and binds of Recovery
--   Accounts           account/baseAccount.go: escrow and multi-signature accounts, and the bytes of
--                      an account
--   Pool               transactionsPool/poolTx.go and basePool.go: the pool of transactions, with
--                      the front of the heap of cheapest items as a parameter
--   Snapshots          account/snapshotRetention.go: the heights that are pruned and read
--   Tests              the definitions and the theorems on concrete inputs
--
-- How the model corresponds to the source. A field or function has the source's name in snake case.
-- An int64 is an integer with `add64`, `sub64` and `mul64` for its operations. A map that the code
-- ranges over is a table, in some order; any other map is a function. A fixed byte array is the list
-- of its bytes. An index out of range, which panics in the source, is the error
-- `index_out_of_range`, or `none`. Every loop is structural recursion over the list or the table
-- that the source ranges over, or over a count that it has checked, and needs no fuel; only the
-- levels of a Merkle tree are built on fuel, the number of leaves, which Merkle.Binding shows to be
-- enough. The loop over the signers of a transaction recurses on the number of addresses that its
-- limit of 255 still allows. The parsers of blocks, transactions and accounts cut their fixed
-- fields at the source's offsets (`cut`).
-- keccak256 is a parameter of the state database and Blake2b of Merkle, Randao, Checks and the
-- state root. CheckBaseBlock takes the proof of synergy, which compares floating-point logarithms,
-- the authentication of oracle proofs and the checks of scheme changes as parameters, and the
-- recovery rules take the record `Outside`: hashes, the registry of keys, and signatures. The marker
-- of a state is stored through two parameters, for writing and reading the database. The values that
-- the genesis sets (MinStakingForNode, the reward ratio, the total supply of the reward) and the
-- clock are arguments.
--
-- Not modelled: locks and log output, storage on disk but for the marker of a state, the price
-- servers, the signatures of headers and of transactions, what a block does to the state beyond the
-- operations above (the transfers of processBlock.go and processTransaction.go, evaluate.go,
-- recovery.go of blocks), the order in which a pool lists its transactions, `Verify` of a
-- transaction, and the packages pubkeys, recoveryplan, message, genesis, tcpip, rpc and cmd, and what
-- is not named above of services and wallet. core/evm, core/abi, core/asm, params, rlp and crypto are
-- copies of other projects' libraries.
pub mod Base
pub mod Types
pub mod Wire
pub mod Delegated
pub mod StateDb
pub mod Recovery
pub mod Voting
pub mod Staking
pub mod Supply
pub mod Oracles
pub mod Hashes
pub mod Merkle
pub mod Blocks
pub mod Randao
pub mod Checks
pub mod StateRoot
pub mod Transactions
pub mod Accounts
pub mod Snapshots
pub mod Pool
pub mod Tests
