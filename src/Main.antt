-- ===== src/Main.antt =====
-- main.go.
pub mod Ports
pub mod Run
