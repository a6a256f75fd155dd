-- ===== src/Samples.antt =====
-- A machine with the PCI tree of the README, and what the program does on it.
pub mod Machine
mod Runs
mod Witnesses
mod Servers
mod Policies
mod Specs
mod Programs
mod Loops
mod Trees
mod Placements
