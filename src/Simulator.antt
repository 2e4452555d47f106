-- ===== src/Simulator.antt =====
-- hsm-sim/src/main.rs: the simulator, the core over a flash in memory and standard input and output.
pub mod Args
pub mod Run
pub mod Answers
