-- ===== src/Tests.antt =====
-- Runs of the theorems on concrete inputs, in a small cloud and on a small node.
pub mod Cloud
pub mod CloudFrame
pub mod CloudReplies
pub mod SequenceRuns
pub mod Machine
pub mod Mounts
pub mod MountRuns
pub mod CycleRuns
pub mod Values
pub mod CreateRuns
pub mod CloneRuns
pub mod AttachmentRuns
pub mod ExpandRuns
pub mod LuksRuns
pub mod NodeRuns
pub mod ReportRuns
pub mod DriverRuns
pub mod MainRuns
