-- ===== src/Gasync/Usb/Finding/Searching.antt =====
-- `gusb_open_path`: what the search for a device and its opening leave in the tables.
use serialusb.Gasync.Usb.{Usb}
