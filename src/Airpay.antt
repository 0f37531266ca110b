-- ===== src/Airpay.antt =====
-- api/airpay_runtime: purchases of Airpay's vouchers and top-ups. Each purchase is a transaction in a
-- journal of its own, and a call about it runs under the transaction's lock.
pub mod Http
pub mod Money
pub mod Transaction
pub mod Answer
pub mod Run
pub mod Purchase
pub mod Payment
pub mod Voucher
pub mod Resolution
pub mod History
pub mod Catalogue
pub mod Preparation
pub mod Batch
pub mod JobResult
pub mod Jobs
pub mod Journal
