-- ===== src/Cpu.antt =====
-- The Intel 8080: Cpu/source/8080.cpp and Cpu/include/Cpu/8080.h.
pub mod State
pub mod Adder
pub mod Logic
pub mod Transfer
pub mod Control
pub mod Decode
pub mod Execute
pub mod Protocol
pub mod Valid
pub mod Snapshot
