-- ===== src/Link.antt =====
-- cocotbext/spacewire/link.py: `SpaceWireLink` and `_CharacterParser`. The link's state is one
-- record; a callback, or a coroutine's run between two `await`s, is a function of it. The bits of the
-- driver, the edges of the monitor and the simulator's timers come from outside.
pub mod State
pub mod Fsm
pub mod Transmit
pub mod Receive
pub mod Api
pub mod Actions
pub mod Waits
pub mod Keeps
pub mod Timing
pub mod Progress
pub mod Waiters
pub mod Peers
pub mod Exchange
pub mod HardErrors
pub mod BadCharacters
pub mod Verdict
pub mod Handshake
pub mod Turns
pub mod Rounds
pub mod Connect
pub mod Running
pub mod Arrivals
pub mod Joined
pub mod Moves
pub mod Transfer
pub mod Conserved
pub mod Arrival
pub mod Spending
pub mod Cycles
pub mod Session
pub mod Sampling
pub mod Credits
pub mod Faults
pub mod Restart
pub mod Sending
