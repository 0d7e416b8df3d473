-- ===== src/Tests.antt =====
-- Tests of the model on small inputs, one module for each part of src/.
mod Data
mod Books
mod Balances
mod Frames
mod Exchanges
mod Requests
mod Sessions
mod Clients
mod Configs
