-- ===== src/Examples.antt =====
-- Concrete runs of the definitions, and the theorems at concrete inputs.
mod Frames
mod Stops
mod Replay
mod Text
mod Ledger
mod Binary
mod Location
mod Dwarf
mod DwarfTypes
mod LineTable
mod CallStack
mod Komet
