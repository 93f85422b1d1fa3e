-- ===== src/Hook.antt =====
-- hook/hook.c: a module that writes a jump over the first bytes of a kernel function.
pub mod Patch
pub mod Jumps
pub mod Redirect
mod Tests
