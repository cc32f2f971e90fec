-- ===== src/Tests.antt =====
-- Concrete runs of the theorems, one file for each part of the sources.
mod Lists
mod Regions
mod Areas
mod Paging
mod Entry
mod Outside
mod Reach
mod Sockets
