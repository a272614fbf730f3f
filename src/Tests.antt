-- ===== src/Tests.antt =====
-- Test data, and each property at a concrete input.
mod Hosts
mod Runs
mod Examples
mod Tables
mod Compiling
mod Files
mod Words
mod Scanning
