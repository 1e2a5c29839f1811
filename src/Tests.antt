-- ===== src/Tests.antt =====
-- Runs of the model at concrete inputs, and the theorems at inputs that meet their hypotheses.
mod Engines
mod Requests
mod Threads
mod Xfers
mod Buffers
mod Dbufs
mod Apertures
mod Tools
mod Devices
