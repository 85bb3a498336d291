-- ===== src/Tests.antt =====
-- Each theorem that has a hypothesis, applied to concrete senders, receivers and frames.
mod States
mod Frames
mod Sending
mod Receiving
mod Updates
mod Numbers
mod Exchanging
mod Disk
mod Records
