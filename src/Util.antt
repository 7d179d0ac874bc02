-- ===== src/Util.antt =====
-- src/util: hexadecimal and decimal text, account names and block hashes.
pub mod Text
pub mod Account
pub mod Hash
