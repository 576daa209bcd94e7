-- ===== src/Tests.antt =====
-- Runs of the theorems at concrete inputs.
mod Models
mod Numbers
mod Channels
mod Codes
mod Packing
mod Messages
mod Funds
mod Wallet
mod Chains
mod Written
mod Files
mod Sending
mod Commands
