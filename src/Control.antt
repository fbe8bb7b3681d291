-- ===== src/Control.antt =====
-- internal/control: the durable command ledger and the module that executes commands.
pub mod Ledger
pub mod Module
