-- ===== src/Financial.antt =====
-- The liquidation of a quote: app/domain/value_objects/liquidation.py and mobility.py, and
-- app/domain/services/financial_engine.py.
pub mod Liquidations
pub mod Mobility
pub mod Engine
pub mod Settlement
pub mod Fares
pub mod Examples
