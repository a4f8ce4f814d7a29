-- ===== src/Examples.antt =====
-- The theorems at concrete inputs, and tests of the definitions.
mod Data
mod Sorting
mod Tests
mod Claims
mod Machine
mod Schema
mod Requests
