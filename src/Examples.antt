-- ===== src/Examples.antt =====
-- Runs of the definitions and instances of the theorems, by component.
mod Clock
mod Victory
mod Access
mod Stacks
mod Floor
mod Gang
mod Yard
mod Commands
mod Server
mod Play
mod Client
mod Fight
