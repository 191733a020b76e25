-- ===== src/Factory.antt =====
-- ServerThread.h and ServerThread.cpp: `class LaptopFactory`, a resource manager.
pub mod State
pub mod Persistence
pub mod Files
pub mod Admin
pub mod Manager
pub mod Backup
pub mod Serve
pub mod Start
pub mod Recovery
pub mod Restart
pub mod Ready
pub mod Main
