-- ===== src/Tests.antt =====
-- Runs of the model on concrete values, and each theorem at an input that meets its hypotheses.
mod Orders
mod Stores
mod Partners
mod Relays
mod Catalogs
mod Menus
mod Migrated
mod Consumers
mod Wires
mod Postgres
