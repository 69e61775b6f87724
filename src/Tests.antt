-- ===== src/Tests.antt =====
-- Tests.
mod Codecs
mod Trees
mod Versions
mod Caches
mod Tables
mod Lookups
mod Pages
mod Providers
mod Clients
mod Calls
