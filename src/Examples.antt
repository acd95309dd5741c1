-- ===== src/Examples.antt =====
-- The theorems at concrete inputs, and runs of the definitions.
mod Maps
mod Headers
mod Tables
mod Directories
mod Disks
mod Machines
mod Steps
mod Queues
mod Monitors
mod Clocks
mod Pages
mod Spaces
mod Mails
mod Users
mod Files
mod Storage
mod Consoles
mod Objects
mod Calls
