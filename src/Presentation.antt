-- ===== src/Presentation.antt =====
-- The HTTP and MCP sides of the program: src/evenkeel/presentation/.
pub mod Problem
pub mod Correlation
pub mod Wallets
pub mod Probes
pub mod Tools
pub mod Mcp
