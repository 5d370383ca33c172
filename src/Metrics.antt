-- ===== src/Metrics.antt =====
-- internal/metrics: the moving average (Average), the buffer (Buffer), the collectors
-- (Collectors) and the system that runs them (System), and the rates of the network (Network) and of the disks (Disk).
pub mod Network
pub mod Disk
pub mod Average
pub mod Buffer
pub mod Collectors
pub mod System
