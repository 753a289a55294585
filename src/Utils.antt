-- ===== src/Utils.antt =====
-- pkg/utils
pub mod Decimal
pub mod Text
pub mod Tokens
