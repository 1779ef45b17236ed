-- ===== src/Services.antt =====
-- Managed services: controllers/controllers/services.
pub mod Broker
pub mod Assets
pub mod Instances
pub mod Bindings
pub mod UserProvided
pub mod Tests
