-- ===== src/Witness.antt =====
-- Runs of the theorems on concrete inputs, and the data that they use.
mod Samples
mod Origins
mod Serving
mod Texts
mod Flows
mod Services
mod Feeds
mod Release
