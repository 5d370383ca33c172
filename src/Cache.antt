-- ===== src/Cache.antt =====
-- internal/cache: the records (Types), the in-memory cache (Memory), its exchange sort (Sort), the
-- factory (Factory); and the cache over SQLite (Sqlite) with what its statements do (Statements).
pub mod Types
pub mod Sort
pub mod Memory
pub mod Interface
pub mod Factory
pub mod Statements
pub mod Sqlite
