-- ===== src/Tests.antt =====
-- Runs of the definitions on concrete inputs, and the theorems applied where their hypotheses hold.
mod Sni
mod Http
mod Relay
mod Serve
mod Ports
mod Run
mod Dns
mod Flights
mod Service
mod Wireguard
mod Describe
mod Config
mod Vault
mod Kv
mod Fetch
mod Tunnel
mod Windows
mod Bind
