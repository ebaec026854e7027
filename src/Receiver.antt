-- ===== src/Receiver.antt =====
-- The RDS receivers gr-sdrp/python/sdrp_rds_rx.py and sdrp_rds_rx_ws.py, with the copies in
-- gr-sdrportal/python: flow graphs of GNU Radio blocks that a constructor adds and connects.
pub mod Graph
pub mod Sections
pub mod Programs
pub mod Wiring
pub mod Checks
pub mod Signature
mod Tests
