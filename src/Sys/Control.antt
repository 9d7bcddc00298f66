-- ===== src/Sys/Control.antt =====
-- DropCount of internal/sys/sys_linux.go, over the control messages that a kernel writes and over any bytes.
mod Bytes
pub mod Scanned
pub mod Encoded
