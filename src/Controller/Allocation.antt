-- ===== src/Controller/Allocation.antt =====
-- What an allocation promises, in each of the three modes.
pub mod Auto
pub mod Results
pub mod Checked
pub mod Safety
pub mod Multiple
pub mod Marks
pub mod Choice
