-- ===== src/Lib.antt =====
-- Verification library of Progressive Chat Desktop, a Matrix client with a Qt user interface.
--
-- Paths are from the repository's root. The program's own code is `src/ui` and `src/main.cpp`; the
-- engine (`core/`: homeserver client, sync, decryption, the states of the timeline and of the room
-- list) is a submodule whose sources are not part of the repository. What the user interface calls of
-- the engine, of Qt and of simdjson is an argument of the definitions that use it.
--
-- The parts and how they interact:
--   * The message field (src/ui/chat/message_edit.cpp, module Composer) turns a key press into a
--     message or a slash command. Messages and `/me` go to the chat view, other commands to the
--     command handler (src/ui/handlers/slash_command_handler.cpp, module Commands).
--   * The chat view (src/ui/chat/chat_view.cpp, module Chat) shows an echo, sends on the thread pool,
--     encrypted or not, and replaces the echo. A run of the job and of the callbacks it queues is one
--     list of actions, in their order. The escape of a body in JSON is module Json, with a reader of
--     JSON strings as its specification. Files and quick reactions of the same view are module Attach.
--   * Threads (src/ui/handlers/thread_handler.cpp, module Threads) opens one thread's view and sends
--     replies into it; its actions are a list too.
--   * A sync brings rooms and rows: RoomStore (src/ui/room/room_store.cpp, modules Rooms and Feed) and
--     the rows about room keys (src/ui/handlers/sync_response_handler.cpp, module RoomKeys). A page of
--     history is read by src/ui/room/room_data_loader.cpp (module History). The list of rooms is an
--     interface, `Rooms.RoomList`, whose laws `IsRoomList` the proofs use; an association list
--     satisfies them.
--   * A row is laid out by src/ui/timeline/timeline_layout.cpp (modules Layout, Layout.Reactions) from
--     what the model answers (src/ui/timeline/timeline_model.cpp, module Timeline), and drawn by
--     src/ui/timeline/timeline_painter.cpp (module Painter). Names are cut by four functions (Names).
--   * Images are fetched and remembered by src/ui/shared/image_loader.cpp (module Images).
--   * Verification (src/ui/handlers/verification_handler.cpp, module Verify), the change of the account
--     (src/ui/handlers/account_switcher.cpp, module Accounts) and the room switcher
--     (src/ui/dialogs/room_switcher_dialog.cpp, module Switcher) are state machines: a record for the
--     state, a function for each handler, and runs as lists of events.
--
--   * The menu of a room (src/ui/handlers/room_context_menu.cpp, module RoomMenu) leaves, joins, forgets
--     and hides rooms; the list and the store behind it are the interfaces `RoomModel` and
--     `HiddenStore`. The menu of a message (same file, module Actions.Menu) calls the handlers of
--     src/ui/timeline/timeline_handlers.cpp (module Actions).
--   * A room is opened and its older messages are loaded by src/ui/handlers/room_handler.cpp (modules
--     RoomHandler, RoomHandler.Page). A sync is brought into the open room and the list by
--     src/ui/handlers/sync_response_handler.cpp (module SyncHandler), which joins Rooms, Feed and
--     RoomHandler. The key of a room is handed out by src/ui/handlers/room_key_helper.cpp (KeyShare).
--   * A session starts in src/ui/handlers/session_bootstrap.cpp, auth_handler.cpp and
--     src/ui/dialogs/login_dialog.cpp (module Session); src/ui/handlers/toolbar_handler.cpp (module
--     Toolbar) has new chats, joins and the reset of the keys.
--   * Attachments are opened by src/ui/handlers/attachment_handler.cpp (module Attachments). Lists in
--     dialogs: src/ui/dialogs/room_directory_dialog.cpp (Directory), src/ui/dialogs/threads_dialog.cpp
--     (ThreadsDialog), src/ui/profile/room_members_dialog.cpp with the loaders of members and states
--     in src/ui/room/room_data_loader.cpp (Members), src/ui/profile/user_profile_dialog.cpp (Profile),
--     src/ui/profile_dialog.cpp (OwnProfile), src/ui/dialogs/log_viewer_dialog.cpp (LogViewer).
--   * A click in a message is read by src/ui/timeline/timeline_delegate.cpp (modules Clicks, Zones) from the
--     layout of the row; the theorems hold its zones against the places of the painter. Rows of the list of
--     rooms are src/ui/room_list_delegate.cpp and room_list_model.cpp (module RoomRows), the settings
--     of a room src/ui/dialogs/room_settings_dialog.cpp (module RoomSettings). The keys of the window
--     and what it does itself are src/ui/main_window.cpp (module Window).
--
-- Base holds the shared lists, texts, maps and integers; Engine the engine's records; Tests the data
-- and the runs that the theorems are tried on.
--
-- Conventions. A text is a list of code units, a map is an association list, `Option` stands for a
-- pointer that may be null. `int` and `int64_t` are natural numbers or `ℤ`: the values are pixels,
-- times in milliseconds and counters, far from the limits of their types. Every loop goes over a
-- list and is structural recursion, but for `Directory.split_objects`: it jumps over a whole object in a
-- round and runs on fuel, of which the length of the text is enough. Threads are modelled by the order in which
-- their actions reach the interface thread: the code queues every change of the state to it.
--
-- Not modelled: windows and widgets, the dialogs that only show what they are given, painting itself,
-- the cache of layouts, settings, notifications, logging, the emoji table, and the parts of
-- src/ui/main_window.cpp, src/ui/handlers/room_handler.cpp and toolbar_handler.cpp that make buttons or
-- connect the others: they have no state of their own. A row is taken to be wide enough for a bubble;
-- in a narrower one Qt would turn a zone of negative width around.
pub mod Accounts
pub mod Actions
pub mod Attach
pub mod Attachments
pub mod Base
pub mod Chat
pub mod Clicks
pub mod Commands
pub mod Composer
pub mod Directory
pub mod Engine
pub mod Feed
pub mod History
pub mod Images
pub mod Json
pub mod KeyShare
pub mod Layout
pub mod LogViewer
pub mod Members
pub mod Names
pub mod OwnProfile
pub mod Painter
pub mod Profile
pub mod RoomHandler
pub mod RoomKeys
pub mod RoomMenu
pub mod RoomRows
pub mod RoomSettings
pub mod Rooms
pub mod Session
pub mod Switcher
pub mod SyncHandler
pub mod Tests
pub mod Threads
pub mod ThreadsDialog
pub mod Timeline
pub mod Toolbar
pub mod Verify
pub mod Window
pub mod Zones
