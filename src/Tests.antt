-- ===== src/Tests.antt =====
-- A small node to run the model on, and the runs.
mod Node
mod Topo
mod Claims
mod Reports
mod Cards
mod Folders
mod Drivers
mod Monitors
mod Checkpoints
mod Lives
mod Templates
