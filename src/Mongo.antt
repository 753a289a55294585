-- ===== src/Mongo.antt =====
-- internal/infrastructure/adapters/db/mongo_adapter.go
pub mod Driver
pub mod Laws
pub mod Repository
pub mod Adapter
pub mod Memory
