-- ===== src/Sdb.antt =====
-- The simple debugger: nemu/src/monitor/sdb.
pub mod Token
pub mod Eval
pub mod Expr
pub mod Watchpoint
pub mod Commands
