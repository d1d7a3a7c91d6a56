-- ===== src/Tests.antt =====
-- Runs of the definitions on concrete inputs, and the theorems at inputs that meet their hypotheses.
mod Memory
mod Boot
mod Disk
mod Allocator
mod Directories
mod Host
mod Programs
mod Output
mod Threads
mod Text
mod Processes
mod Commands
