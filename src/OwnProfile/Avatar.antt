-- ===== src/OwnProfile/Avatar.antt =====
-- What the server is asked for when an avatar is set (src/ui/profile_dialog.cpp).
use progressive_desktop.Base.{
  ◌≡◌, Bool, none, some, List, [], ◌∷◌, arith, ◌&&◌, if◌then◌else◌, Option-cases, inl, inr,
}
use progressive_desktop.Engine.{ApiResult}
use progressive_desktop.OwnProfile.{
  Call, upload_media, set_avatar_url, Action, call, status, File, settled, uploaded,
  on_set_avatar_clicked,
}

abbrev pub calls : List Action → List Call
calls [] = []
calls (call c ∷ as') = c ∷ calls as'
calls (status t ∷ as') = calls as'

-- A file that cannot be read is not uploaded, and the avatar becomes exactly what the server stored the file as: nothing is
-- set where the upload failed or the dialog was closed before its reply.
pub on_set_avatar_clicked-calls :
    (alive : Bool) (reply : Call → ApiResult) (f : File)
    → calls (on_set_avatar_clicked alive reply (some f)) ≡ elim f.bytes as (λ x. List Call) [
      | none ↦ []
      | some bytes ↦
          let upload = upload_media bytes f.name f.content_type in
          upload
          ∷ (if alive && (reply upload).ok then set_avatar_url (reply upload).content ∷ [] else [])
    ]
unfolding on_set_avatar_clicked uploaded settled
on_set_avatar_clicked-calls alive reply f = elim (Option-cases f.bytes) [
  | inl e ↦ ground arith
  | inr (bytes, e) ↦ ground arith
]
