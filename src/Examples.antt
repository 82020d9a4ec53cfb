-- ===== src/Examples.antt =====
-- Runs of the development on a concrete platform: the platform, and one module of runs for each part
-- of the program.
mod Sim
mod KernelSim
mod CaamRuns
mod ServerRuns
mod Serving
mod MainRuns
mod QueueRuns
mod KernelRuns
