-- ===== src/Tests.antt =====
-- The theorems at concrete inputs, and the data that they are applied to.
mod Data
mod Lists
mod Calls
mod Loading
mod LogFile
mod Menu
mod Served
mod Race
mod Stops
mod Programs
