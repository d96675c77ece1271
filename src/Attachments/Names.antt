-- ===== src/Attachments/Names.antt =====
-- The names of attachments, and what is fetched again, in src/ui/handlers/attachment_handler.cpp.
use progressive_desktop.Base.{
  ◌≡◌, refl, ◌⊎◌, inl, inr, Bool, true, false, Option, none, some, List, [], ◌∷◌, ◌++◌, arith, Text,
  text, is_empty, is_some, not, index_of, ◌==◌, Option-cases, if_rule, Bool-cases, All, Map, lookup,
}
use progressive_desktop.Engine.{DisplayedEvent}
use progressive_desktop.Attachments.{
  extensions, extension_for_mimetype, default_suffix_for_msgtype, extension, display_name_for,
  Action, call, show_image, ImageCache, World, image_answer, open_image, fetch,
}

abbrev pub has_dot : Text → Bool
has_dot t = is_some (index_of b'.' t)

has_dot-append : (xs ys : Text) → has_dot ys ≡ true → has_dot (xs ++ ys) ≡ true
unfolding index_of
has_dot-append [] ys h = h
has_dot-append (x ∷ xs) ys h = ground (arith, has_dot-append xs ys h)

abbrev HasDots : Map Text → Type 0
HasDots = All (λ r. has_dot r.1 ≡ true)

lookup-has_dot :
    (k : Text) (table : Map Text) {v : Text}
    → HasDots table
    → lookup k table ≡ some v
    → has_dot v ≡ true
unfolding lookup
lookup-has_dot k [] h e = cc
lookup-has_dot k ((j, w) ∷ table) {v} (p, ps) e = elim (Bool-cases (j == k)) [
  | inl same ↦ let same_value : some w ≡ some v = rw same at e in ground arith
  | inr other ↦ lookup-has_dot k table ps (rw other at e)
]

extensions-HasDots : HasDots extensions
unfolding extensions index_of text
extensions-HasDots = (
  refl,
  (
    refl,
    (
      refl,
      (
        refl,
        (
          refl,
          (
            refl,
            (refl, (refl, (refl, (refl, (refl, (refl, (refl, (refl, (refl, (refl, tt)))))))))),
          ),
        ),
      ),
    ),
  ),
)

extension_for_mimetype-has_dot : (m : Text) → has_dot (extension_for_mimetype m) ≡ true
unfolding extension_for_mimetype
extension_for_mimetype-has_dot m = elim (Option-cases (lookup m extensions)) [
  | inl e ↦ rw (e, extension_for_mimetype) (unfold text index_of in refl)
  | inr (v, e) ↦ rw (e, extension_for_mimetype) (lookup-has_dot m extensions extensions-HasDots e)
]

default_suffix_for_msgtype-has_dot : (t : Text) → has_dot (default_suffix_for_msgtype t) ≡ true
unfolding default_suffix_for_msgtype index_of text
default_suffix_for_msgtype-has_dot t =
    let P = λ (s : Text). has_dot s ≡ true in
    if_rule P (t == text "m.image") (λ e. refl)
      (λ e.
        if_rule P (t == text "m.video") (λ e. refl)
          (λ e. if_rule P (t == text "m.audio") (λ e. refl) (λ e. refl)))

extension-has_dot :
    (lower : Text → Text) (msgtype mimetype : Text)
    → has_dot (extension lower msgtype mimetype) ≡ true
unfolding extension
extension-has_dot lower msgtype mimetype =
    if_rule (λ t. has_dot t ≡ true) (is_empty mimetype)
      (λ s. default_suffix_for_msgtype-has_dot msgtype)
      (λ s. extension_for_mimetype-has_dot (lower mimetype))

empty_no_dot : (t : Text) → is_empty t ≡ true → has_dot t ≡ false
unfolding index_of
empty_no_dot [] h = refl
empty_no_dot (x ∷ t) h = cc

-- The name under which an attachment is saved or shown always has a dot: a body that has one is taken as it is,
-- and every other name gets the extension of its content type or of its kind.
pub display_name_for-has_dot :
    (lower : Text → Text) (body msgtype mimetype : Text)
    → (has_dot (display_name_for lower body msgtype mimetype) ≡ true)
      × ((display_name_for lower body msgtype mimetype ≡ body) ⊎ (has_dot body ≡ false))
unfolding display_name_for
display_name_for-has_dot lower body msgtype mimetype =
    let ext = extension lower msgtype mimetype in
    let e = extension-has_dot lower msgtype mimetype in
    ground (
      arith,
      has_dot-append body ext e,
      has_dot-append (text "image") ext e,
      has_dot-append (text "video") ext e,
      has_dot-append (text "audio") ext e,
      has_dot-append (text "file") ext e,
      empty_no_dot body,
    )

module _ {C : Type 0} (q : ImageCache C) (w : World) (row : Option DisplayedEvent)
    (mxc : Text) where
  abbrev pub is_shown : List Action → Bool
  is_shown [] = false
  is_shown (show_image name bytes ∷ as') = true
  is_shown (x ∷ as') = is_shown as'

  abbrev pub is_asked : List Action → Bool
  is_asked [] = false
  is_asked (call c ∷ as') = true
  is_asked (x ∷ as') = is_asked as'

  -- An image that was shown once is shown again without asking the server, by the same name, as long as the
  -- cache keeps what was put into it; and an image that could not be shown does not enter the cache.
  pub open_image_again :
      (c : C)
      → ((bytes : Text) → q.object mxc (q.insert mxc bytes c) ≡ some bytes)
      → let (c', first) = open_image q w row mxc c in
        let (c2, second) = open_image q w row mxc c' in
        (is_asked second ≡ not (is_shown first))
        × ((is_shown first ≡ true) ⊎ (q.object mxc c' ≡ none))
  unfolding open_image image_answer
  open_image_again c law = elim (Option-cases (q.object mxc c)) [
    | inl e ↦ ground (arith, law (w.reply (fetch q w row mxc)).content)
    | inr (bytes, e) ↦ ground arith
  ]
