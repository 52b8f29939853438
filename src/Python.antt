-- ===== src/Python.antt =====
-- What the program uses of Python's built-in types: text, dates and exceptions.
pub mod Text
pub mod Date
pub mod Exception
pub mod Re
pub mod State
pub mod Json
