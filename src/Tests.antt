-- ===== src/Tests.antt =====
-- Concrete runs, and the theorems that have hypotheses at inputs that meet them.
mod Screen
mod Protocol
mod Agents
mod Grid
mod Session
mod Feed
mod View
mod Hosts
mod Connections
mod Forms
mod Entries
mod Keys
mod Textures
mod Shown
mod Networks
