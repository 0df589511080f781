-- ===== src/UsbSerial.antt =====
-- src/firmware/usb_serial.c over the rings of ipc.h: rings of lines, the parts of
-- `usb_serial_task`, and the parser of commands. A C string is the list of its characters before
-- the NUL. Each section under the spin lock is one step.
pub mod Ring
pub mod Fifo
pub mod Task
pub mod Command
mod Tests
