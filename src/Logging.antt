-- ===== src/Logging.antt =====
-- app/utils/logging.py. The texts that the module takes apart are lists of code points.
pub mod Query
pub mod Trace
pub mod Middleware
