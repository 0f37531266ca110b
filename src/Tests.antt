-- ===== src/Tests.antt =====
-- Runs of the code on sample values, and the theorems at concrete inputs.
mod Samples
mod WorldRuns
mod Tables
mod Answers
mod Airpay
mod Jobs
mod Api
mod History
mod Forms
