-- ===== src/Witness.antt =====
-- Concrete worlds, and each theorem at one of them.
mod Arithmetic
mod Data
mod BookingRuns
mod Ranked
mod Cached
mod Picked
mod Guests
mod Lodgings
mod Messages
mod Leaving
mod Journeys
mod Channels
mod Processes
