-- ===== src/Examples.antt =====
-- Runs of the model on concrete data: the witnesses of the theorems, and tests.
mod Data
mod RunExamples
mod WireExamples
mod ServiceExamples
mod SandboxExamples
mod CleanupExamples
mod PumpExamples
mod ContractExamples
mod RepairExamples
mod ObjectExamples
