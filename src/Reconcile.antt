-- ===== src/Reconcile.antt =====
-- internal/reconcile: what is owned, and the application of a plan to the kernel.
pub mod Routes
pub mod Rules
pub mod Removals
pub mod Kernel
