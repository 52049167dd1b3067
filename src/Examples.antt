-- ===== src/Examples.antt =====
-- The theorems at concrete inputs, and tests of the definitions.
mod Buffers
mod Traces
mod Intervals
mod Words
mod Notation
mod Texts
mod Graphs
mod Schedules
