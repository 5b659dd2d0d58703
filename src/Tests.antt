-- ===== src/Tests.antt =====
-- Runs of the program on small inputs.
mod Data
mod Sending
mod Datagrams
mod Sockets
mod Requests
mod Setups
mod Conversations
mod Headers
mod Workers
mod Programs
mod Endings
mod Layers
mod Rings
