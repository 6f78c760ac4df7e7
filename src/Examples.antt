-- ===== src/Examples.antt =====
-- Runs of the model at concrete inputs, and instances of the theorems.
mod Entity
mod Retry
mod World
mod Postgres
mod Worker
mod Frankfurter
mod Http
mod Pool
mod App
mod Migrate
mod ReadBack
