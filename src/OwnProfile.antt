-- ===== src/OwnProfile.antt =====
-- src/ui/profile_dialog.cpp: one's own name and avatar. A handler with its pool jobs and callbacks is a list of actions.
pub mod Avatar
use progressive_desktop.Base.{
  Bool, true, false, Option, none, some, List, [], ◌∷◌, ◌++◌, Text, text, not, if◌then◌else◌,
}
use progressive_desktop.Engine.{ApiResult}

pub data Call : Type 0 where
  set_display_name : Text → Call
  upload_media : Text → Text → Text → Call
  set_avatar_url : Text → Call

pub data Action : Type 0 where
  call : Call → Action
  status : Text → Action

pub record Dialog : Type 0 where
  pub name : Text
  pub avatar_mxc : Text
  pub status : Text

-- The reply to the request for the profile: its name and avatar, where it is JSON and they are texts.
unfoldable pub profile_loaded : ApiResult → Option (Option Text × Option Text) → Dialog → Dialog
profile_loaded r profile d =
    let name : Text = elim profile as (λ x. Text) [
      | none ↦ d.name
      | some (dn, av) ↦ elim dn [ none ↦ d.name | some n ↦ n ]
    ] in
    let avatar : Text = elim profile as (λ x. Text) [
      | none ↦ d.avatar_mxc
      | some (dn, av) ↦ elim av [ none ↦ d.avatar_mxc | some a ↦ a ]
    ] in
    if r.ok
    then record { name = name; avatar_mxc = avatar; status = text "Ready." }
    else record d { status = text "Failed to load profile: " ++ r.message }

-- A file that was picked: its name, its type and its bytes, where it can be opened.
pub record File : Type 0 where
  pub name : Text
  pub content_type : Text
  pub bytes : Option Text

-- `alive` says that the dialog is there when a reply comes.
module _ (alive : Bool) (reply : Call → ApiResult) where
  unfoldable pub settled : Call → Text → Text → List Action
  settled c done failed =
      let r = reply c in
      if not alive then [] else if r.ok then status done ∷ [] else status (failed ++ r.message) ∷ []

  unfoldable pub on_save_name_clicked : Text → List Action
  unfolding settled
  on_save_name_clicked name =
      status (text "Saving...")
      ∷ call (set_display_name name)
      ∷ settled (set_display_name name) (text "Display name saved.") (text "Failed: ")

  -- The reply to the upload.
  unfoldable pub uploaded : ApiResult → List Action
  unfolding settled
  uploaded upload =
      if not alive
      then []
      else if not upload.ok
      then status (text "Upload failed: " ++ upload.message) ∷ []
      else call (set_avatar_url upload.content)
        ∷ settled (set_avatar_url upload.content) (text "Avatar updated.")
            (text "Set avatar failed: ")

  unfoldable pub on_set_avatar_clicked : Option File → List Action
  unfolding uploaded
  on_set_avatar_clicked none = []
  on_set_avatar_clicked (some f) = elim f.bytes [
    | none ↦ status (text "Failed to open file.") ∷ []
    | some bytes ↦
        let upload = upload_media bytes f.name f.content_type in
        status (text "Uploading avatar...") ∷ call upload ∷ uploaded (reply upload)
  ]
