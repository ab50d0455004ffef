-- ===== src/Controller.antt =====
-- src/controller.rs and src/bin/smart-gateway-controller.rs: the deployment plan with its port
-- conflicts, and the transaction that makes a revision of the configuration current.
pub mod Plan
pub mod Transaction
mod Tests
