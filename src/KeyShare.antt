-- ===== src/KeyShare.antt =====
-- src/ui/handlers/room_key_helper.cpp: shareRoomKeyForRoom. The parsed list of members is an argument; the
-- decryptor's memory of the rooms whose key was shared is behind `SharedKeys`.
pub mod Recipients
use progressive_desktop.Base.{
  ◌≡◌, Bool, true, false, Option, none, some, List, [], ◌∷◌, Text, text, is_empty, ◌==◌,
  if◌then◌else◌,
}

-- A member event of `chunk`: `content.membership` and `state_key`, where they are texts.
pub record Member : Type 0 where
  pub membership : Option Text
  pub state_key : Option Text

-- `roomKeyShared` and `markRoomKeyShared`.
pub record SharedKeys (D : Type 0) : Type 0 where
  pub is_shared : Text → D → Bool
  pub mark_shared : Text → D → D

pub record IsSharedKeys {D : Type 0} (k : SharedKeys D) : Type 0 where
  pub shared-mark :
      (a b : Text) (d : D)
      → k.is_shared a (k.mark_shared b d) ≡ (if b == a then true else k.is_shared a d)

pub data Step : Type 0 where
  get_room_members : Text → Step
  share_room_key : Text → List Text → Step

-- `members` is the reply to the request, none for an error, where an answer that is no JSON or has no
-- array counts as no members; `share` says whether the keys reach the server.
pub record Server : Type 0 where
  pub members : Text → Option (List Member)
  pub share : Text → List Text → Bool

-- The loop over the members.
unfoldable pub joined_ids : List Member → List Text
joined_ids [] = []
joined_ids (e ∷ es) =
    let rest = joined_ids es in
    elim e.membership as (λ x. List Text) [
      | none ↦ rest
      | some kind ↦
          if kind == text "join"
          then elim e.state_key as (λ x. List Text) [ none ↦ rest | some id ↦ id ∷ rest ]
          else rest
    ]

module _ {D : Type 0} (k : SharedKeys D) (w : Server) where
  -- The key goes out, and the room is marked where that succeeded.
  unfoldable pub share_with : Text → List Text → D → Bool × D × List Step
  share_with room ids d = if is_empty ids then (false, d, get_room_members room ∷ []) else (
    w.share room ids,
    (if w.share room ids then k.mark_shared room d else d),
    get_room_members room ∷ share_room_key room ids ∷ [],
  )

  unfoldable pub share_room_key_for_room : Text → D → Bool × D × List Step
  unfolding joined_ids share_with
  share_room_key_for_room room d =
      if k.is_shared room d then (true, d, []) else elim (w.members room) [
        | none ↦ (false, d, get_room_members room ∷ [])
        | some members ↦ share_with room (joined_ids members) d
      ]
