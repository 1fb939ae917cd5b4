-- ===== src/Examples/App.antt =====
-- Inputs for the Angular application, gatling-rest/static/src/app.
mod Upload
mod Session
mod Pages
