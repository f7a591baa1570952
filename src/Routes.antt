-- ===== src/Routes.antt =====
-- app/api/routes.py: the endpoints.
pub mod Describe
pub mod Timed
pub mod Respond
pub mod Batch
pub mod Health
pub mod Descriptions
pub mod Table
pub mod Serve
