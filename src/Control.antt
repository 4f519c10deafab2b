-- ===== src/Control.antt =====
-- The control plane of the API (api/routers/control.py).
pub mod Api
pub mod Latched
pub mod Guarded
pub mod Tests
