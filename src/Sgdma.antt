-- ===== src/Sgdma.antt =====
-- xdma/cdev_sgdma.c, the character device of a DMA engine.
pub mod Dbuf
pub mod Buffer
