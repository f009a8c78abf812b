-- ===== src/Examples.antt =====
-- The theorems at concrete inputs, with concrete functions in place of the libraries.
mod Docs
mod Framing
mod Settings
mod Server
mod Sound
mod Browser
mod Window
mod Popup
mod Advertiser
mod DnsSd
mod Devices
mod IconLoader
mod Lifecycle
mod Process
mod Terminal
