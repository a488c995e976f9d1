-- ===== src/Io.antt =====
-- Input and output as the codec uses it. Requests are written into a bytes.Buffer, whose Write never
-- fails; responses are read from an io.Reader through io.ReadFull. A reader is the list of bytes that
-- it has yet to deliver, and ends with io.EOF.
mod Defs
mod Loops
pub mod Encodes
unfoldable pub use Defs.*
unfoldable pub use Loops.{read_times, write_each}
