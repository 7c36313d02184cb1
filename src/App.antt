-- ===== src/App.antt =====
-- The program put together: relay/factory.py and app.py.
pub mod Factory
pub mod Lifespan
