-- ===== src/Examples.antt =====
-- The theorems at concrete inputs, and runs of the definitions.
mod Menu
mod Greeting
mod Check
mod Notify
mod Timing
mod Picker
mod App
mod Jobs
