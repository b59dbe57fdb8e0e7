-- ===== src/Outscraper.antt =====
-- The Outscraper client (src/clients/outscraper_client.py).
pub mod Task
pub mod Request
pub mod Fetch
pub mod Examples
