-- ===== src/Examples.antt =====
-- The theorems at concrete inputs, and runs of the modelled code.
mod Accounts
mod Servers
mod Access
mod Locks
mod Consoles
mod Availability
mod Operations
mod Signin
mod Events
mod Schedtime
mod Schedules
mod Tarstream
