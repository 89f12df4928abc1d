-- ===== src/Tests.antt =====
-- Runs of the model at concrete inputs.
mod PoolRuns
mod DeliveryRuns
mod CaptureRuns
mod HeaderRuns
mod HostRuns
mod WorkerRuns
mod BackendRuns
mod SessionRuns
mod CallbackRuns
mod CommandRuns
mod LogRuns
mod StatusRuns
