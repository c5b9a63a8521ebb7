-- ===== src/Lib.antt =====
-- The game core of Prison Break, an online game of prisoners and guards, written in Go.
--
-- The server keeps a `GameState` for each match and changes it tick by tick. The packages under
-- internal/gamecore are the rules of the game, as functions on that state and on its players; the
-- match manager under internal/server/game calls them in turn. Each part is a module here:
--   Model          internal/shared/model (types.go, state.go, input.go): the state, field by field;
--                  Model/Zero has Go's zero values, Model/Kinds the tests on enumerations.
--   GameMap        internal/gamecore/map: access_control.go, black_market.go, the rooms of layout.go.
--   Phase          internal/gamecore/phase/manager.go: the clock of day and night, with the hooks
--                  that internal/server/game/manager.go installs.
--   WinConditions  internal/gamecore/winconditions/evaluator.go: the end of a match.
--   Items          internal/gamecore/items: inventory.go and market.go; Items/Dropped has the tags of
--                  an item on the floor.
--   Escape         internal/gamecore/escape/routes.go: what each escape route asks of a player.
--   Roles          internal/gamecore/roles: assignment.go, by which the players get their roles,
--                  succession.go, by which a gang gets a new leader, and visibility.go, the
--                  players of a snapshot as one of them may see them.
--   Abilities      internal/gamecore/abilities/framework.go: the table of abilities and their users.
--   Prison         internal/gamecore/prison/systems.go: the power and the doors, and whom an alarm
--                  looks for.
--   Cards          internal/gamecore/cards/framework.go: the hand of a player, and what a card grabs.
--   InputQueue     internal/server/game/input_queue.go: commands of players, queued for a tick to come
--                  and consumed in it.
--   Combat         internal/gamecore/combat/engine.go: loadouts, weapons and damage, without what is
--                  computed in floating point.
--   Matches        internal/server/game/manager.go and config.go: the matches of a server and their
--                  players, from the lobby to the end, as a step relation of calls and ticks.
--   Actions        internal/server/game/manager.go: what commands do to the state of a match. Market
--                  has purchases and payments, Stash the stash of a cell, Uses the cooldowns and daily
--                  limits of abilities, Effects the effects on a player, Doors the doors and the power,
--                  Ammo the bullets, the inventories that a match starts with and the feedback,
--                  Sidearms the arms of the authorities on a new day, Equip the
--                  weapon in hand.
--   Snapshots      internal/client/netclient/snapshot_store.go: the state of the match on a client,
--                  which takes snapshots and changes from the server.
--   Session        the match session of manager.go, which Matches and InputQueue share.
--   Shared         what the parts share: tests, lists, strings, sorting, machine words, hashing.
--   Examples       runs of the definitions, and instances of the theorems.
--
-- A function keeps its Go name in the spelling of this library: `EvaluateRoomEntry` is
-- `evaluate_room_entry`. A function that writes through a pointer returns the new value, with the
-- result of the call beside it. Pointers that are not optional are taken as not nil. A string is
-- the list of its bytes, and strings are ordered as Go orders them. Words are natural numbers:
-- what can pass the range of its type is reduced by `u8`, `u16` or `u64`. A `float32` is its bit
-- pattern, as nothing here computes with one. A Go map that is only read back in sorted order is
-- an association list, and one that is only looked up a function. `sort.Slice` is a stable sort
-- by insertion. The hash of hash/fnv is computed.
--
-- The loop of `Advance` runs on fuel and gives `none` where that runs out; two rounds more than the
-- current tick are enough, since each round moves the end of the phase by a tick at least.
--
-- The application of commands by the match manager is not part of the tick of Matches; whether the
-- tick ends the match, and with which reason, is an argument there.
--
-- Not modelled: the layout of the rooms and its paths, replays,
-- the validation of the payloads of commands, and the handlers of the match manager but those above;
-- matchmaking, persistence, rendering and the network; the clocks and locks of the server; and
-- what in the packages above only lists or formats things.
pub mod Shared
pub mod Model
pub mod GameMap
pub mod Phase
pub mod WinConditions
pub mod Items
pub mod Escape
pub mod Roles
pub mod Abilities
pub mod Prison
pub mod Cards
pub mod Session
pub mod InputQueue
pub mod Matches
pub mod Combat
pub mod Actions
pub mod Snapshots
mod Examples
