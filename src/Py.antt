-- ===== src/Py.antt =====
-- The part of Python that the tools of tools/*.py stand on: values read by `json.loads`, their
-- `==`, truth, subscripts and methods, exceptions as results, loops, and `json.dumps`.
pub mod Value
pub mod Result
pub mod Dict
pub mod Access
pub mod Equal
pub mod Text
pub mod Fields
pub mod Floats
pub mod Hash
pub mod Order
pub mod Checks
pub mod Arithmetic
pub mod Loops
pub mod Rows
pub mod Running
pub mod Samples
