-- ===== src/Tests.antt =====
-- Concrete inputs, and runs of the definitions and the theorems on them.
mod Samples
mod Evm
mod Accounts
mod Votes
mod Stakes
mod Supply
mod Prices
mod Trees
mod Blocks
mod Encodings
mod Pool
mod Roots
mod Transfers
mod Accepted
mod Revealing
