-- ===== src/App.antt =====
-- The Angular application of the dashboard (gatling-rest/static/src/app).
pub mod Upload
pub mod Session
pub mod Pages
pub mod Detail
pub mod Service
pub mod Title
pub mod Metrics
pub mod Home
pub mod Workers
