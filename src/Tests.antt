-- ===== src/Tests.antt =====
-- Concrete tasks, orders, a time zone and a browser, and the theorems at them.
pub mod Data
mod Tasks
mod Orders
pub mod Dates
mod Drops
mod Lists
mod Stores
mod Savers
mod Calendars
mod Sessions
mod Requests
mod Preferences
mod Accounts
mod Texts
