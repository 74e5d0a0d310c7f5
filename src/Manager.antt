-- ===== src/Manager.antt =====
-- utils/cluster_manager.py: the script that starts and stops Redis servers for the tests of the
-- wrappers. Logging is left out, and of an exception's message the parts that vary.
pub mod System
pub mod Ends
pub mod Text
pub mod Waiting
pub mod Total
pub mod Certificates
pub mod Servers
pub mod Linking
pub mod Stopping
pub mod Main
pub mod TotalActions
pub mod TotalServers
pub mod Ports
pub mod Counting
pub mod GivenPorts
pub mod Termination
pub mod Skipping
