-- ===== src/Catalog.antt =====
-- console/catalog.py: sealed workload definitions and placement admission.
pub mod Definition
pub mod MountPoint
pub mod Shape
pub mod Seal
pub mod Admission
pub mod Sealing
pub mod Tests
