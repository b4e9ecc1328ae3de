-- ===== src/Runs.antt =====
-- Runs on concrete data, and the theorems at inputs that meet their hypotheses.
mod Sample
mod Services
mod Profiles
mod Calendar
mod Wire
mod Fields
mod Messages
mod Parsing
mod Wishes
mod Circle
mod Following
mod Agenda
mod Book
mod Filling
mod Tables
