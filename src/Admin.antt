-- ===== src/Admin.antt =====
-- The screens of the administration, frontend/src/pages/admin.
pub mod Products
pub mod Purchase
pub mod Dashboard
