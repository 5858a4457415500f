-- ===== src/Plugin.antt =====
-- crates/vbuff-plugin/src/governance: the rules for the plugins that run beside the program.
pub mod Supervisor
