-- ===== src/Commands/Dispatch.antt =====
-- handleCommand of slash_command_handler.cpp: which entry a command reaches.
use mathlib.Core.Path.{subst}
use progressive_desktop.Base.{
  ◌≡◌, refl, ◌≢◌, inl, inr, Bool, Option, none, some, List, [], ◌∷◌, ◌++◌, arith, Text, text, ◌==◌,
  ==-sound, All, Option-cases, Bool-cases,
}
use progressive_desktop.Commands.{
  Command, Handler, null_call, system_row, commands, run_handler, find_command, handle_with,
  handle_command,
}

-- A lookup finds an entry of the table, so what all entries have it has.
find_command-All {κ} :
    (P : Command → Type κ) (cmd : Text) (table : List Command) (c : Command)
    → All P table
    → find_command cmd table ≡ some c
    → P c
unfolding find_command
find_command-All P cmd [] c h e = cc
find_command-All P cmd (d ∷ table) c (p, ps) e = elim (Bool-cases (d.name == cmd)) [
  | inl hit ↦ let same : d ≡ c = ground arith in subst P same p
  | inr miss ↦ find_command-All P cmd table c ps (rw miss at e)
]

find_command-none :
    (cmd : Text) (table : List Command)
    → All (λ c. c.name ≢ cmd) table
    → find_command cmd table ≡ none
unfolding find_command
find_command-none cmd [] h = refl
find_command-none cmd (d ∷ table) (p, ps) =
    ground (arith, ==-sound d.name cmd, find_command-none cmd table ps)

-- A command that no entry names, other than `help`, gets the feedback row and nothing else: it is
-- never sent as a message and reaches no handler.
handle_with_unknown :
    (table : List Command) (client auth : Bool) (room cmd args : Text)
    → cmd ≢ text "help"
    → All (λ c. c.name ≢ cmd) table
    → handle_with table client auth room cmd args
      ≡ system_row (text "Unknown command: /" ++ cmd ++ text " (try /help)")
unfolding handle_with
handle_with_unknown table client auth room cmd args h all =
    ground (arith, ==-sound cmd (text "help"), find_command-none cmd table all)

run_handler-ne-null :
    (client auth : Bool) (handler : Option Handler) (room args : Text)
    → handler ≢ none
    → run_handler client auth handler room args ≢ null_call
unfolding run_handler
run_handler-ne-null client auth none room args h = absurd (h refl)
run_handler-ne-null client auth (some Handler.invite) room args h = ground arith
run_handler-ne-null client auth (some k) room args h = ground arith

-- With a function in every entry of the table no command ends in a call through a null pointer.
pub handle_with_bound :
    (table : List Command) (client auth : Bool) (room cmd args : Text)
    → All (λ c. c.run ≢ none) table
    → handle_with table client auth room cmd args ≢ null_call
unfolding handle_with
handle_with_bound table client auth room cmd args all =
    elim (Option-cases (find_command cmd table)) [
      | inl e ↦ ground arith
      | inr (c, e) ↦ ground (
        arith,
        run_handler-ne-null client auth c.run room args
            (find_command-All (λ d. d.run ≢ none) cmd table c all e),
      )
    ]

-- The table that the constructor fills in has no function in any entry: every command that it
-- names, other than `help`, ends in a call through a null pointer.
handle_command_null :
    (client auth : Bool) (room cmd args : Text) (c : Command)
    → cmd ≢ text "help"
    → find_command cmd commands ≡ some c
    → handle_command client auth room cmd args ≡ null_call
unfolding handle_command run_handler
handle_command_null client auth room cmd args c h e =
    let e' : c.run ≡ none =
      find_command-All (λ d. d.run ≡ none) cmd commands c (search tt depth 12) e in
    ground (arith, ==-sound cmd (text "help"))
