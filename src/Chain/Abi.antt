-- ===== src/Chain/Abi.antt =====
-- The ABI encoder of chain/abi.go. Texts are lists of bytes.
pub mod Outcome
pub mod Texts
pub mod Types
pub mod Words
pub mod Encode
pub mod Shrinking
pub mod Whole
pub mod Ending
pub mod Layout
pub mod Integers
pub mod Erc20
mod Examples
