-- ===== src/Tests.antt =====
-- Concrete inputs, and each theorem at one of them.
mod Data
mod Arbitration
mod Clients
mod Sources
mod Members
mod Wires
mod Measures
mod Edges
mod Flights
mod Starts
mod Runs
mod Sockets
mod Pages
