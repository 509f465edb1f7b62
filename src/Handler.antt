-- ===== src/Handler.antt =====
-- The package handler: its request limits, sessions, stores and approval flow.
pub mod RateLimit
pub mod DailyLimit
pub mod Approval
pub mod Passkey
pub mod Broadcast
pub mod Facts
pub mod Requests
pub mod Idempotency
pub mod Spend
pub mod Nicknames
pub mod Policy
pub mod AddressBook
pub mod Transfer
pub mod SolWrap
pub mod ContractCall
pub mod Contract
pub mod SseHub
pub mod EmailVerification
pub mod Sessions
pub mod Authentication
