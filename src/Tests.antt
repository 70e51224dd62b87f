-- ===== src/Tests.antt =====
-- The theorems at concrete inputs.
mod Media
mod Net
mod Rest
mod Stage
mod Accounts
mod Encoding
mod Outside
mod Reports
