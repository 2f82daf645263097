-- ===== src/Tests.antt =====
-- Tests and examples: the theorems at concrete inputs, and runs of the programs.
mod Fixtures
mod Machine
mod Codecs
mod FanoutTests
mod RoundData
mod GuardTests
mod RoundTests
mod HistoryTests
mod RoyaltyTests
mod HumanTests
mod EscrowData
mod EscrowTests
mod CommonTests
mod RoyaltyData
mod TokenTests
mod CallTests
mod ContractCodecs
mod ContractTests
