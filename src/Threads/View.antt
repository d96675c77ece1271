-- ===== src/Threads/View.antt =====
-- What the view of a thread shows: src/ui/handlers/thread_handler.cpp.
use progressive_desktop.Base.{
  ℕ, ◌≡◌, refl, true, false, Option, none, some, List, [], ◌∷◌, ◌++◌, map, arith, Text, is_empty,
  ◌==◌, ==-refl, ◌&&◌, ◌||◌, if_rule, All, All-append,
}
use progressive_desktop.Engine.{DisplayedEvent}
use progressive_desktop.Threads.{
  Thread, Answer, find_row, reply_snapshots, thread_root, thread_reply, root_rows, show_answer,
  open_thread_view,
}

-- The row is the root of a thread or a reply in the thread with the root.
abbrev pub IsOf : Text → DisplayedEvent → Type 0
IsOf root d = (d.is_thread_root || d.is_thread_reply && d.thread_root_id == root) ≡ true

module _ (msg_type msg_body : Text → Text) (extract : Text → Text → Text) (decimal : ℕ → Text) where
  snapshots-IsOf :
      (root : Text) (rows : List DisplayedEvent) → All (IsOf root) (reply_snapshots root rows)
  unfolding reply_snapshots
  snapshots-IsOf root [] = tt
  snapshots-IsOf root (d ∷ ds) =
      if_rule (All (IsOf root)) (d.is_thread_reply && d.thread_root_id == root)
        (λ s. (ground (arith, s), snapshots-IsOf root ds)) (λ s. snapshots-IsOf root ds)

  replies-IsOf :
      (root : Text) (chunk : List DisplayedEvent)
      → All (IsOf root) (map (thread_reply msg_type msg_body extract decimal root) chunk)
  unfolding thread_reply
  replies-IsOf root [] = tt
  replies-IsOf root (d ∷ ds) = (ground (arith, ==-refl root), replies-IsOf root ds)

  root-IsOf :
      (root : Text) (snapshot original : Option DisplayedEvent)
      → All (IsOf root) (root_rows msg_type msg_body extract decimal snapshot original)
  unfolding root_rows thread_root
  root-IsOf root none none = tt
  root-IsOf root (some s) none = (refl, tt)
  root-IsOf root none (some o) = (refl, tt)
  root-IsOf root (some s) (some o) = (refl, tt)

  -- Whatever the server answers, and whatever was shown before: the opened view shows nothing but the
  -- root of the thread and replies in it.
  open_thread_view-IsOf :
      (root room : Text) (answer : Answer) (t : Thread)
      → is_empty room ≡ false
      → All
          (IsOf root)
          (open_thread_view msg_type msg_body extract decimal true root room answer t).timeline
  unfolding open_thread_view show_answer
  open_thread_view-IsOf root room (Answer.failed m) t h = rw h tt
  open_thread_view-IsOf root room Answer.unparsed t h = rw h tt
  open_thread_view-IsOf root room (Answer.replies original none) t h =
      rw h (root-IsOf root (find_row root t.timeline) original)
  open_thread_view-IsOf root room (Answer.replies original (some chunk)) t h = rw h (
      let rows = root_rows msg_type msg_body extract decimal (find_row root t.timeline) original in
      let shown = map (thread_reply msg_type msg_body extract decimal root) chunk in
      All-append (IsOf root) (rows ++ shown) (reply_snapshots root t.timeline)
        (All-append (IsOf root) rows shown (root-IsOf root (find_row root t.timeline) original)
          (replies-IsOf root chunk))
        (snapshots-IsOf root t.timeline))
