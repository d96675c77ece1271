-- ===== src/Attachments.antt =====
-- src/ui/handlers/attachment_handler.cpp: opening an image, a video, a sound or a file of the timeline. The cache of full
-- images is a QCache, behind `ImageCache`; a run with its pool job and callback is a list of actions.
pub mod Names
use progressive_desktop.Base.{
  ℕ, Bool, true, false, Option, none, some, List, [], ◌∷◌, ◌++◌, Text, text, is_empty, is_some,
  ◌==◌, not, ◌&&◌, ◌||◌, if◌then◌else◌, eqb, leb, index_of, Map, lookup,
}
use progressive_desktop.Engine.{DisplayedEvent, ApiResult}

unfoldable pub media_failure_reason : (ℕ → Text) → ℕ → Text → Text
media_failure_reason decimal http_status message =
    if eqb http_status 404
    then text "Media not found (HTTP 404) — removed from the server"
    else if leb 400 http_status
    then text "HTTP " ++ decimal http_status ++ text " — access denied or unavailable"
    else if not (is_empty message)
    then message
    else text "network error — will retry"

-- The chain of tests, as the table of its cases.
unfoldable pub extensions : Map Text
extensions =
    (text "image/png", text ".png")
    ∷ (text "image/jpeg", text ".jpg")
    ∷ (text "image/jpg", text ".jpg")
    ∷ (text "image/gif", text ".gif")
    ∷ (text "image/webp", text ".webp")
    ∷ (text "image/bmp", text ".bmp")
    ∷ (text "video/mp4", text ".mp4")
    ∷ (text "video/webm", text ".webm")
    ∷ (text "video/quicktime", text ".mov")
    ∷ (text "audio/mpeg", text ".mp3")
    ∷ (text "audio/ogg", text ".ogg")
    ∷ (text "audio/wav", text ".wav")
    ∷ (text "audio/x-wav", text ".wav")
    ∷ (text "application/pdf", text ".pdf")
    ∷ (text "text/plain", text ".txt")
    ∷ (text "application/zip", text ".zip")
    ∷ []

-- The content type in small letters.
unfoldable pub extension_for_mimetype : Text → Text
unfolding extensions
extension_for_mimetype m = elim (lookup m extensions) [ none ↦ text ".bin" | some ext ↦ ext ]

unfoldable pub default_suffix_for_msgtype : Text → Text
default_suffix_for_msgtype t =
    if t == text "m.image"
    then text ".png"
    else if t == text "m.video"
    then text ".mp4"
    else if t == text "m.audio"
    then text ".mp3"
    else text ".bin"

unfoldable pub extension : (Text → Text) → Text → Text → Text
unfolding extension_for_mimetype default_suffix_for_msgtype
extension lower msgtype mimetype =
    if is_empty mimetype
    then default_suffix_for_msgtype msgtype
    else extension_for_mimetype (lower mimetype)

unfoldable pub display_name_for : (Text → Text) → Text → Text → Text → Text
unfolding extension
display_name_for lower body msgtype mimetype =
    let ext = extension lower msgtype mimetype in
    if not (is_empty body)
    then (if is_some (index_of b'.' body) then body else body ++ ext)
    else if msgtype == text "m.image"
    then text "image" ++ ext
    else if msgtype == text "m.video"
    then text "video" ++ ext
    else if msgtype == text "m.audio"
    then text "audio" ++ ext
    else text "file" ++ ext

pub data Call : Type 0 where
  download_media : Text → Call
  download_media_encrypted : Text → Text → Text → Text → Call

pub data Action : Type 0 where
  call : Call → Action
  status : Text → Action
  warn : Text → Action
  open_file : Text → Text → Action
  show_image : Text → Text → Action

pub record ImageCache (C : Type 0) : Type 0 where
  pub object : Text → C → Option Text
  pub insert : Text → Text → C → C

-- `decodes` says whether Qt reads an image from the bytes, `temp_path` where a file is put, `can_write` whether it can
-- be.
pub record World : Type 0 where
  pub lower : Text → Text
  pub decimal : ℕ → Text
  pub reply : Call → ApiResult
  pub alive : Bool
  pub decodes : Text → Bool
  pub temp_path : Text → Text
  pub can_write : Bool

abbrev pub field : (DisplayedEvent → Text) → Option DisplayedEvent → Text
field f none = []
field f (some e) = f e

module _ {C : Type 0} (q : ImageCache C) (w : World) (row : Option DisplayedEvent)
    (mxc : Text) where
  unfoldable pub file_name : Text
  unfolding display_name_for
  file_name =
      display_name_for w.lower (field (λ e. e.body) row) (field (λ e. e.msgtype) row)
        (field (λ e. e.mimetype) row)

  unfoldable pub fetch : Call
  fetch =
      let key = field (λ e. e.media_key) row in
      if is_empty key
      then download_media mxc
      else download_media_encrypted mxc key (field (λ e. e.media_iv) row)
          (field (λ e. e.media_sha256) row)

  unfoldable pub is_download : Bool
  is_download =
      let kind = field (λ e. e.msgtype) row in
      kind == text "m.video" || kind == text "m.audio" || kind == text "m.file"

  unfoldable pub file_answer : ApiResult → List Action
  unfolding media_failure_reason
  file_answer r =
      if not w.alive
      then []
      else if not r.ok || is_empty r.content
      then warn (
          text "Failed to download "
          ++ file_name
          ++ text "\n"
          ++ media_failure_reason w.decimal r.http_status r.message)
        ∷ []
      else if not w.can_write
      then warn (text "Failed to create temp file.") ∷ []
      else open_file (w.temp_path file_name) r.content ∷ []

  unfoldable pub image_answer : ApiResult → C → C × List Action
  unfolding media_failure_reason
  image_answer r c =
      if not w.alive
      then (c, [])
      else if not r.ok || is_empty r.content || not (w.decodes r.content)
      then (
        c,
        warn (
              text "Failed to load image\n"
              ++ media_failure_reason w.decimal r.http_status r.message)
            ∷ [],
      )
      else (q.insert mxc r.content c, show_image file_name r.content ∷ [])

  unfoldable pub open_image : C → C × List Action
  unfolding fetch image_answer file_name
  open_image c = elim (q.object mxc c) [
    | some bytes ↦ (c, show_image file_name bytes ∷ [])
    | none ↦ (
      (image_answer (w.reply fetch) c).0,
      status (text "Loading full image...") ∷ call fetch ∷ (image_answer (w.reply fetch) c).1,
    )
  ]

  -- `openAttachment`.
  unfoldable pub open_attachment : C → C × List Action
  unfolding is_download file_answer open_image file_name fetch
  open_attachment c =
      if is_empty mxc
      then (c, [])
      else if is_download
      then (
        c,
        status (text "Downloading " ++ file_name ++ text "...")
            ∷ call fetch
            ∷ file_answer (w.reply fetch),
      )
      else open_image c
