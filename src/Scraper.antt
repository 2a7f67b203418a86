-- ===== src/Scraper.antt =====
-- scraper/mlxscraper/eta.go, scraper/mlxscraper/conditions.go: the predictions and the frequencies
-- of the network's own service.
pub mod Etas
pub mod Fetch
pub mod Processed
pub mod Expiry
pub mod Conditions
