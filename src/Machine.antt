-- ===== src/Machine.antt =====
-- Machine/source/Machine.cpp: the machine that joins the cpu, the controllers and the clock.
pub mod Controllers
pub mod Loop
pub mod Setup
pub mod Settings
pub mod Images
pub mod Handlers
pub mod Run
pub mod Lifecycle
