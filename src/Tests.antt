-- ===== src/Tests.antt =====
-- Runs of the modelled code, and the theorems at concrete inputs, component by component.
mod CartTests
mod SaleTests
mod SyncTests
mod PaymentTests
mod SessionTests
mod PrinterTests
mod OverlapTests
mod CatalogTests
mod TerminalTests
mod StatusTests
mod PosTests
mod AdminTests
