-- ===== src/Pricing.antt =====
-- Prices, vouchers and platform fees: src/modules/pricing/pricing.service.ts.
pub mod Data
pub mod Voucher
pub mod Auto
pub mod Price
pub mod Items
mod Tests
