-- ===== src/Notify.antt =====
-- The notifications of the dashboard (gatling-rest/static/src/assets/js/bootstrap-notify.js).
pub mod Format
pub mod Stack
pub mod Update
pub mod Countdown
pub mod Closing
pub mod Opening
pub mod Settings
