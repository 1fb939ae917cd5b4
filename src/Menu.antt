-- ===== src/Menu.antt =====
-- The dashboard's menu script (gatling-rest/static/src/assets/js/gatling.js).
pub mod Debounce
pub mod Toggle
pub mod Sidebar
