-- ===== src/Rooms/Kept.antt =====
-- What the list of rooms keeps across syncs, whatever applyRoomSyncUpdate of
-- src/ui/room/room_store.cpp is given.
use progressive_desktop.Base.{
  ◌≡◌, refl, ◌∙◌, sym, true, false, Option, none, some, List, [], ◌∷◌, arith, Text, is_empty, ◌==◌,
  ==-sound, not, ◌&&◌, if_rule, Bool-cases, inl, inr, All, All-of,
}
use mathlib.Core.Path.{subst}
use progressive_desktop.Rooms.{
  RoomData, RoomList, IsRoomList, RoomSyncUpdate, keep_name, keep_avatar, keep_encryption, preserve,
  remove_rooms, upsert_rooms, invite_rooms, apply_rooms,
}

-- The list knows the room, and what it knows has the property.
abbrev pub Knows : {S : Type 0} → RoomList S → Text → (RoomData → Type 0) → S → Type 0
Knows m k P s = (r : RoomData) × (m.find k s ≡ some r) × P r

abbrev pub IsEncrypted : RoomData → Type 0
IsEncrypted r = r.is_encrypted ≡ true

-- The room shows a name of its own, which is neither empty nor its id.
abbrev pub IsTitled : Text → RoomData → Type 0
IsTitled k r = (is_empty r.name ≡ false) × ((r.name == k) ≡ false)

-- The id and the name, which the avatar and the encryption leave alone.
abbrev IsSameRoom : RoomData → RoomData → Type 0
IsSameRoom a b = (a.room_id ≡ b.room_id) × (a.name ≡ b.name)

keep_name_id : (old rd : RoomData) → (keep_name old rd).room_id ≡ rd.room_id
unfolding keep_name
keep_name_id old rd =
    if_rule (λ (r : RoomData). r.room_id ≡ rd.room_id)
      (rd.name == rd.room_id && not (is_empty old.name) && not (old.name == rd.room_id)) (λ s. refl)
      (λ s. refl)

keep_avatar_same : (old rd : RoomData) → IsSameRoom (keep_avatar old rd) rd
unfolding keep_avatar
keep_avatar_same old rd =
    if_rule (λ r. IsSameRoom r rd) (is_empty rd.avatar_url && not (is_empty old.avatar_url))
      (λ s. (refl, refl)) (λ s. (refl, refl))

keep_encryption_same : (old rd : RoomData) → IsSameRoom (keep_encryption old rd) rd
unfolding keep_encryption
keep_encryption_same old rd =
    if_rule (λ r. IsSameRoom r rd) (not rd.is_encrypted && old.is_encrypted) (λ s. (refl, refl))
      (λ s. (refl, refl))

preserve_same :
    (old rd : RoomData)
    → ((preserve (some old) rd).room_id ≡ rd.room_id)
      × ((preserve (some old) rd).name ≡ (keep_name old rd).name)
unfolding preserve
preserve_same old rd =
    let (i, n) = keep_avatar_same old (keep_name old rd) in
    let (i', n') = keep_encryption_same old (keep_avatar old (keep_name old rd)) in
    (i' ∙ i ∙ keep_name_id old rd, n' ∙ n)

preserve_id : (o : Option RoomData) (rd : RoomData) → (preserve o rd).room_id ≡ rd.room_id
unfolding preserve
preserve_id none rd = refl
preserve_id (some old) rd = (preserve_same old rd).0

keep_encryption_lem : (old r : RoomData) → IsEncrypted old → IsEncrypted (keep_encryption old r)
unfolding keep_encryption
keep_encryption_lem old r h =
    if_rule IsEncrypted (not r.is_encrypted && old.is_encrypted) (λ s. refl)
      (λ s. ground (arith, h))

preserve-IsEncrypted : (old rd : RoomData) → IsEncrypted old → IsEncrypted (preserve (some old) rd)
unfolding preserve
preserve-IsEncrypted old rd h = keep_encryption_lem old (keep_avatar old (keep_name old rd)) h

keep_name_lem :
    (old rd : RoomData)
    → is_empty rd.name ≡ false
    → IsTitled rd.room_id old
    → IsTitled rd.room_id (keep_name old rd)
unfolding keep_name
keep_name_lem old rd n (h, h') =
    if_rule (IsTitled rd.room_id)
      (rd.name == rd.room_id && not (is_empty old.name) && not (old.name == rd.room_id))
      (λ s. (h, h')) (λ s. (n, ground (arith, h, h')))

preserve-IsTitled :
    (old rd : RoomData)
    → is_empty rd.name ≡ false
    → IsTitled rd.room_id old
    → IsTitled rd.room_id (preserve (some old) rd)
preserve-IsTitled old rd n h = rw ((preserve_same old rd).1) (keep_name_lem old rd n h)

module _ {S : Type 0} (m : RoomList S) (laws : IsRoomList m) (k : Text) where
  -- A property of what is known of the room survives an update that preserves it.
  upsert_Knows :
      (P : RoomData → Type 0) (rd : RoomData) (s : S)
      → ((old : RoomData) → rd.room_id ≡ k → P old → P (preserve (some old) rd))
      → Knows m k P s
      → Knows m k P (m.upsert_room (preserve (m.find rd.room_id s) rd) s)
  unfolding preserve
  upsert_Knows P rd s step (r, e, h) = elim (Bool-cases (rd.room_id == k)) [
    | inl same ↦
        let id : rd.room_id ≡ k = ==-sound rd.room_id k same in
        let found : m.find rd.room_id s ≡ some r = rw id e in
        (
          preserve (some r) rd,
          laws.find-upsert k (preserve (m.find rd.room_id s) rd) s
              ∙ rw (preserve_id, same, found) refl,
          step r id h,
        )
    | inr other ↦
        (r, laws.find-upsert k (preserve (m.find rd.room_id s) rd) s ∙ rw (preserve_id, other) e, h)
  ]

  remove_Knows :
      (P : RoomData → Type 0) (ks : List Text) (s : S)
      → All (λ j. (j == k) ≡ false) ks
      → Knows m k P s
      → Knows m k P (remove_rooms m ks s)
  unfolding remove_rooms
  remove_Knows P [] s h kn = kn
  remove_Knows P (j ∷ ks) s (n, ns) (r, e, h) =
      remove_Knows P ks (m.remove_room j s) ns (r, laws.find-remove k j s ∙ rw n e, h)

  invite_Knows :
      (P : RoomData → Type 0) (rds : List RoomData) (s : S)
      → All (λ (rd : RoomData). (rd.room_id == k) ≡ false) rds
      → Knows m k P s
      → Knows m k P (invite_rooms m rds s)
  unfolding invite_rooms
  invite_Knows P [] s h kn = kn
  invite_Knows P (rd ∷ rds) s (n, ns) (r, e, h) =
      invite_Knows P rds (m.upsert_room rd s) ns (r, laws.find-upsert k rd s ∙ rw n e, h)

  upserts_Knows :
      (P Q : RoomData → Type 0) (rds : List RoomData) (s : S)
      → ((old rd : RoomData) → Q rd → rd.room_id ≡ k → P old → P (preserve (some old) rd))
      → All Q rds
      → Knows m k P s
      → Knows m k P (upsert_rooms m rds s)
  unfolding upsert_rooms
  upserts_Knows P Q [] s step h kn = kn
  upserts_Knows P Q (rd ∷ rds) s step (q, qs) kn =
      upserts_Knows P Q rds (m.upsert_room (preserve (m.find rd.room_id s) rd) s) step qs
        (upsert_Knows P rd s (λ old. step old rd q) kn)

  -- A room that was encrypted stays encrypted through any sync that neither removes it nor invites to
  -- it, whatever the sync says of its encryption.
  pub apply_rooms-IsEncrypted :
      (u : RoomSyncUpdate) (s : S)
      → All (λ j. (j == k) ≡ false) u.rooms_to_remove
      → All (λ (rd : RoomData). (rd.room_id == k) ≡ false) u.invited_rooms
      → Knows m k IsEncrypted s
      → Knows m k IsEncrypted (apply_rooms m u s)
  unfolding apply_rooms
  apply_rooms-IsEncrypted u s removed invited h =
      let kept = remove_Knows IsEncrypted u.rooms_to_remove s removed h in
      let now =
        upserts_Knows IsEncrypted (λ rd. Unit) u.rooms_to_upsert
          (remove_rooms m u.rooms_to_remove s) (λ old rd q id. preserve-IsEncrypted old rd)
          (All-of (λ rd. tt) u.rooms_to_upsert) kept in
      invite_Knows IsEncrypted u.invited_rooms
        (upsert_rooms m u.rooms_to_upsert (remove_rooms m u.rooms_to_remove s)) invited now

  -- A room with a name of its own, neither empty nor the room's id, has one after any sync that
  -- neither removes it nor invites to it, where the sync gives its rooms a name or their id.
  apply_rooms-IsTitled :
      (u : RoomSyncUpdate) (s : S)
      → All (λ j. (j == k) ≡ false) u.rooms_to_remove
      → All (λ (rd : RoomData). (rd.room_id == k) ≡ false) u.invited_rooms
      → All (λ (rd : RoomData). is_empty rd.name ≡ false) u.rooms_to_upsert
      → Knows m k (IsTitled k) s
      → Knows m k (IsTitled k) (apply_rooms m u s)
  unfolding apply_rooms
  apply_rooms-IsTitled u s removed invited named h =
      let kept = remove_Knows (IsTitled k) u.rooms_to_remove s removed h in
      let now =
        upserts_Knows (IsTitled k) (λ rd. is_empty rd.name ≡ false) u.rooms_to_upsert
          (remove_rooms m u.rooms_to_remove s)
          (λ old rd q id t.
            subst (λ j. IsTitled j (preserve (some old) rd)) id
              (preserve-IsTitled old rd q (subst (λ j. IsTitled j old) (sym id) t)))
          named kept in
      invite_Knows (IsTitled k) u.invited_rooms
        (upsert_rooms m u.rooms_to_upsert (remove_rooms m u.rooms_to_remove s)) invited now
