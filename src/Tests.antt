-- ===== src/Tests.antt =====
-- The theorems of the development at concrete inputs.
mod Data
mod Requests
mod Grants
mod Objects
mod Logins
mod Programs
