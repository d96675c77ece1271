-- ===== src/KeyShare/Recipients.antt =====
-- Who is given a room key by src/ui/handlers/room_key_helper.cpp, and what is remembered of it.
use progressive_desktop.Base.{
  ◌≡◌, refl, ◌≢◌, Bool, false, ◌&&◌, none, some, List, [], ◌∷◌, arith, Text, text, is_empty, ◌==◌,
  ==_iff, ==-refl, if◌then◌else◌, count_if, All, Bool-cases, Option-cases, inl, inr, if_rule, ◌⊎◌,
}
use progressive_desktop.KeyShare.{
  Member, SharedKeys, IsSharedKeys, Step, get_room_members, share_room_key, Server, joined_ids,
  share_with, share_room_key_for_room,
}

-- The member has joined, and its state key is the user.
abbrev pub is_join_of : Text → Member → Bool
is_join_of user e = elim e.membership [
  | none ↦ false
  | some kind ↦ kind == text "join" && elim e.state_key [ none ↦ false | some id ↦ id == user ]
]

joined_ids-count :
    (user : Text) (es : List Member)
    → count_if (λ id. id == user) (joined_ids es) ≡ count_if (is_join_of user) es
unfolding joined_ids
joined_ids-count user [] = refl
joined_ids-count user (e ∷ es) = ground (arith, joined_ids-count user es)

module _ {D : Type 0} (k : SharedKeys D) (w : Server) where
  -- A step that gives a key away gives that of the room, and to each user as often as the member list
  -- has a join of the user.
  abbrev pub IsFair : Text → Step → Type 0
  IsFair room (get_room_members r) = r ≡ room
  IsFair room (share_room_key r ids) =
      (r ≡ room)
      × (ids ≢ [])
      × ((members : List Member) × (w.members room ≡ some members)
          × ((user : Text) → count_if (λ id. id == user) ids ≡ count_if (is_join_of user) members))

  -- A room key is handed out only to those users who have joined the room by the server's list, and to
  -- all of them; it is never handed out to nobody, and no key of another room is handed out.
  pub share_room_key_for_room-IsFair :
      (room : Text) (d : D) → All (IsFair room) (share_room_key_for_room k w room d).2
  unfolding share_room_key_for_room share_with
  share_room_key_for_room-IsFair room d =
      if_rule (λ (r : Bool × D × List Step). All (IsFair room) r.2) (k.is_shared room d) (λ _. tt)
        (λ _. elim (Option-cases (w.members room)) [
          | inl e ↦ rw (e, share_room_key_for_room) (refl, tt)
          | inr (members, e) ↦
              rw (e, share_room_key_for_room)
                (elim (Bool-cases (is_empty (joined_ids members))) [
                  | inl none_joined ↦ rw (none_joined, share_with) (refl, tt)
                  | inr some_joined ↦
                      rw (some_joined, share_with)
                        (
                          refl,
                          (
                            (
                              refl,
                              (λ n. ground arith),
                              (members, e, (λ user. joined_ids-count user members)),
                            ),
                            tt,
                          ),
                        )
                ])
        ])

  module _ (law : IsSharedKeys k) where
    -- The result says whether the room counts as shared from then on, and what is known of other rooms
    -- stays. A second run asks the server for nothing after a success, and repeats the first run's
    -- requests after a failure.
    pub share_room_key_for_room_settles :
        (room other : Text) (d : D)
        → let (done, d', steps) = share_room_key_for_room k w room d in
          (k.is_shared room d' ≡ done)
          × ((room ≡ other) ⊎ (k.is_shared other d' ≡ k.is_shared other d))
          × ((share_room_key_for_room k w room d').2 ≡ (if done then [] else steps))
    unfolding share_room_key_for_room share_with
    share_room_key_for_room_settles room other d = elim (Option-cases (w.members room)) [
      | inl e ↦ ground arith
      | inr (members, e) ↦ ground (
        arith,
        law.shared-mark room room d,
        law.shared-mark other room d,
        ==-refl room,
        ==_iff room other,
      )
    ]
