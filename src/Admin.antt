-- ===== src/Admin.antt =====
-- The administration interface: firmware/anchor/src/core/admin_policy.h, admin_policy.cpp,
-- admin_credentials.h and admin_credentials.cpp.
pub mod Text
pub mod Gate
pub mod Upload
pub mod Credentials
