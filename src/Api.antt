-- ===== src/Api.antt =====
-- internal/api: the records (Models), the client's settings (Client), requests and retries (Http),
-- the API methods (Methods), the offline queue (Queue, Batches, Priority), the
-- command handler (Pool, Commands), and the registration (Registration).
pub mod Models
pub mod Client
pub mod Http
pub mod Methods
pub mod Batches
pub mod Queue
pub mod Priority
pub mod Pool
pub mod Commands
pub mod Registration
