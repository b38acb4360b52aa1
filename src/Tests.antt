-- ===== src/Tests.antt =====
-- Concrete numbers, boxes, formulas and parts, and the theorems applied to them.
mod Instances
mod Boxes
mod Formulas
mod Definitions
mod Abstractions
mod Cycles
mod Literals
mod Requests
mod Searches
mod Theories
mod Contractors
mod Vectors
mod Maps
mod Sets
mod Options
