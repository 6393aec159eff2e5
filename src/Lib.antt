-- ===== src/Lib.antt =====
-- A verification library for GoMud, a multi-user dungeon server in Go.
--
-- The server keeps its world in package-level state: parties, characters with their buffs, quests and
-- vitals, an event queue with registered listeners, shops, mutators of rooms, prompts, and state of its
-- plugin modules; the users stand in an index file. Commands and round hooks call operations on that
-- state, mostly under one lock, so each model is a record with the operations as functions from state
-- to state, and runs are sequences of calls.
--
-- The parts, and the files that model them:
--   Parties (internal/parties/parties.go): `partyMap` holds pointers to parties, so the model is a
--     store of parties and a map from users to places in it. `New`, `InvitePlayer`, `AcceptInvite`,
--     `DeclineInvite`, `Leave` and `Disband` keep their names.
--   Buffs, StatMods (internal/buffs/buffs.go, buffspec.go, internal/statmods/statmods.go): the list of
--     buffs with its two lookups, by id and by flag, and the rounds of a buff. Buffs/Rounds has
--     `Trigger` and `Prune`, Buffs/Flags has `HasFlag`.
--   Events (internal/events/events.go): the priority queue with the map of unique ids, and
--     `ProcessEvents`. Events/Listeners (internal/events/listeners.go): the registry that
--     `ProcessEvents` dispatches to.
--   Mutators (internal/mutators/mutators.go): the list of a room's mutators, their decay and respawn.
--   Shop, Cooldowns, KdStats (internal/characters/shop.go, cooldowns.go, kdstats.go): parts of a
--     character.
--   Ephemeral (internal/rooms/ephemeral.go): copies of rooms in chunks of ids.
--   Gamelock (internal/gamelock/gamelock.go): the lock of a container or an exit.
--   Gametime (internal/gametime/gametime.go): what a period such as `2 days` adds to a round.
--   Follow (modules/follow/follow.go) and Auctions (modules/auctions/auctions.go): the state of two
--     plugin modules.
--   UserIndex (internal/users/index.go): the index file of user names and ids, as bytes. Calls has the
--     records, `Create` and `AddUser`, Searches the lookups and `RemoveByUsername`; the proofs compare
--     the file with a list of entries.
--   Uuid (internal/uuid/uuid.go, uuid_string.go): the ids and their generator; Uuid/Text has their text.
--   Quests (internal/quests/quests.go, and the quest methods of internal/characters/character.go):
--     tokens, the order of their steps, and a character's progress.
--   Prompt (internal/prompt/prompt.go): the questions that a command asks a user.
--   Character (internal/characters/character.go): Vitals has health, mana and action points, Memory the
--     rooms that a character remembers, Spells its spell book.
--   BadInput (internal/badinputtracker/badinputtracker.go): the counts of unknown commands.
--   Matching (internal/util/util.go): how a typed name finds one of several things.
--   Prelude: what the parts share: lists, searches, integers, maps, texts as bytes, decimal numbers,
--     words in bytes, and `|` and `&` of bit fields.
--
-- Names: a Go function `FooBar` is `foo_bar`, and the fields of a struct keep their names. Methods
-- take the receiver last. The child modules of a part hold its proofs, and each Tests module holds
-- runs at concrete values and the theorems at an example.
--
-- Numbers: ids, counters and rounds are natural numbers, and prices, quantities, bids and
-- priorities are integers, without a bound on either: Go's 64 bits are taken to be enough. Uuid and
-- UserIndex write out the widths of words and fields, since their layout depends on them.
--
-- Texts: where the code takes a text apart it is a list of bytes. `strings.ToLower` and `TrimSpace` are
-- then those of ASCII.
--
-- Parameters: the specs and quests that data files give, the users that are online, the users that
-- the user files hold, the readings of the clock, the code of listeners,
-- the keys that KdStats makes with `fmt.Sprintf`, and, in Gametime, three products in Go's float64 that
-- are rounded to whole rounds. The parts that call AddPeriod take it as any function from texts and
-- rounds to rounds. AddPeriod can add no round, for an empty period or for few minutes, so the
-- theorem on the restocking of a shop asks for a round of the rates that it uses, and another one shows
-- what happens without. `container/heap` is its contract, that a pop takes a least entry. A spec of a
-- buff has a round interval and a trigger count of at least one where a theorem asks for it, as `Validate`
-- of a spec makes sure.
--
-- Fuel: `process_loop` gets one round for each queued event and one more; `restock_loop` gets more
-- rounds than have passed since the start of the game. The theorems on them show when this is
-- enough. The wait of `NewUUID` goes over the readings of the clock, and no id means that it still
-- waits. All other loops go over a list, or over the record numbers of a file. A panic is `none`.
--
-- Not modelled: locks and goroutines, time measurement, log lines, texts sent to players, files
-- other than the user index, the network, scripts, and parts of the server that stand beside these:
-- most of a room, a character's equipment and stats, mobs, combat, items and the commands.
pub mod Auctions
pub mod BadInput
pub mod Buffs
pub mod Character
pub mod Cooldowns
pub mod Ephemeral
pub mod Events
pub mod Follow
pub mod Gamelock
pub mod Gametime
pub mod KdStats
pub mod Matching
pub mod Mutators
pub mod Parties
pub mod Prelude
pub mod Prompt
pub mod Quests
pub mod Shop
pub mod StatMods
pub mod UserIndex
pub mod Uuid
