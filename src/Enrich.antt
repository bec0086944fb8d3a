-- ===== src/Enrich.antt =====
-- services/enrich: the governor, the filter and the inference service.
pub mod Governor
pub mod Filter
pub mod Inference
pub mod Flush
