-- ===== src/Examples.antt =====
-- The theorems at concrete inputs.
mod Decimals
mod Debts
mod Reports
mod Plans
mod Holdings
mod Homes
mod Access
mod Logins
mod Scenarios
mod Jobs
mod Advice
mod Duplicates
