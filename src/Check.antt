-- ===== src/Check.antt =====
-- The check boxes, radio buttons and switches of the dashboard
-- (gatling-rest/static/src/assets/js/bootstrap-checkbox-radio-switch.js).
pub mod Widget
pub mod Checkbox
pub mod Radio
pub mod Switch
