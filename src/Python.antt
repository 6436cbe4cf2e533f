-- ===== src/Python.antt =====
-- The parts of Python and its standard library that the program rests on: dynamic values, dicts,
-- exceptions, `int()` and `str()`, and the text methods that the code calls.
mod Dicts
mod Values
mod Exceptions
pub mod Number
mod Text
mod Access
pub mod Search
unfoldable pub use Dicts.*
unfoldable pub use Values.*
unfoldable pub use Exceptions.*
unfoldable pub use Number.*
unfoldable pub use Text.*
unfoldable pub use Search.*
unfoldable pub use Access.*
