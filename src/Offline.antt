-- ===== src/Offline.antt =====
-- frontend/src/offline and services/api/sales.ts: the local database, the queue of sales to send, the
-- requests that carry them, and the local catalog.
pub mod Table
pub mod JsMap
pub mod Db
pub mod Sync
pub mod Status
pub mod Request
pub mod Catalog
