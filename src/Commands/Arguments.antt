-- ===== src/Commands/Arguments.antt =====
-- What the handlers of slash_command_handler.cpp make of their argument text, and when a request is
-- sent at all.
use progressive_desktop.Base.{
  ◌≡◌, refl, ◌≢◌, ◌⊎◌, inl, inr, Bool, true, Option, none, some, [], ◌∷◌, arith, Text, split_blank,
  starts_with, eqb, Bool-cases, if◌then◌else◌,
}
use progressive_desktop.Commands.{
  Handler, Request, enqueue, invite_user, kick_user, join, run_invite, run_kick, run_handler,
}

-- `/kick` sends a request only with a client, an open room and a user id; that id is what stands
-- before the first blank, and the reason is all that stands behind it.
pub run_kick_sends :
    (client : Bool) (room args : Text) (q : Request)
    → run_kick client room args ≡ enqueue q
    → (client ≡ true)
      × (room ≢ [])
      × ((split_blank args).0 ≢ [])
      × (q ≡ kick_user room (split_blank args).0 (split_blank args).1)
unfolding run_kick
run_kick_sends client room args q h = ground arith

prefixed :
    (u : Text)
    → (user : Text) × ((if starts_with b'@' u then u else b'@' ∷ u) ≡ b'@' ∷ user)
      × ((u ≡ b'@' ∷ user) ⊎ (u ≡ user))
prefixed [] = ([], refl, inr refl)
prefixed (x ∷ xs) = elim (Bool-cases (eqb x b'@')) [
  | inl e ↦ (xs, ground arith, inl (ground arith))
  | inr e ↦ (x ∷ xs, rw e, inr refl)
]

-- `/invite` sends a request only with a client, an open room and a user id, and the id that it
-- sends begins with `@` whether or not the user typed one.
run_invite_sends :
    (client : Bool) (room args : Text) (q : Request)
    → run_invite client room args ≡ enqueue q
    → (client ≡ true)
      × (room ≢ [])
      × ((user : Text) × (q ≡ invite_user room (b'@' ∷ user))
          × (((split_blank args).0 ≡ b'@' ∷ user) ⊎ ((split_blank args).0 ≡ user)))
unfolding run_invite
run_invite_sends client room args q h =
    let (user, shape, typed) = prefixed (split_blank args).0 in
    (ground arith, ground arith, (user, ground arith, typed))

-- No handler sends a request without a client, and only `/join` sends one with no room open.
pub run_handler_sends :
    (client auth : Bool) (handler : Option Handler) (room args : Text) (q : Request)
    → run_handler client auth handler room args ≡ enqueue q
    → (client ≡ true) × ((handler ≡ some join) ⊎ (room ≢ []))
unfolding run_handler
run_handler_sends client auth none room args q h = cc
run_handler_sends client auth (some Handler.invite) room args q h = ground arith
run_handler_sends client auth (some h') room args q h = ground arith
