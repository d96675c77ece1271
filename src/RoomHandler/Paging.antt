-- ===== src/RoomHandler/Paging.antt =====
-- What comes of a click for older messages (src/ui/handlers/room_handler.cpp, onLoadMoreClicked).
use progressive_desktop.Base.{
  ℕ, ◌+◌, ◌≤◌, ◌≡◌, refl, ◌≢◌, Bool, true, Option, none, some, List, [], ◌∷◌, ◌++◌, arith, Text,
  length, length-append,
}
use mathlib.Core.List.{append_assoc}
use progressive_desktop.History.{Raw}
use progressive_desktop.Rooms.{RoomData}
use progressive_desktop.RoomMenu.{RoomModel}
use progressive_desktop.RoomHandler.Page.{
  Engine, clear, append_front, Answer, failed, unparsed, page, next_batch, read_page,
}
use progressive_desktop.RoomHandler.{
  get_messages, View, tell, ask, on_room_clicked, on_load_more_clicked, show_page, page_loaded,
  mark_read,
}

module _ {S : Type 0} (m : RoomModel S) (decimal : ℕ → Text) (g : Engine)
    (has_row : Text → Bool) where
  -- Whatever comes back for older messages, the button can be pressed again, the cache of names, the room
  -- and the list of rooms stay, and nothing further is asked of the server.
  page_loaded_unlocks :
      (client : Bool) (a : Answer) (v : View S)
      → let asked = on_load_more_clicked m decimal client v in
        let w = page_loaded m decimal g has_row a asked in
        (w.load_more_enabled ≡ true)
        × (w.current_room ≡ v.current_room)
        × (w.cache ≡ v.cache)
        × (w.rooms ≡ v.rooms)
        × (w.requests ≡ asked.requests)
        × (length asked.requests ≤ length v.requests + 1)
  unfolding page_loaded show_page tell on_load_more_clicked ask
  page_loaded_unlocks client failed v =
      ground (arith, length-append v.requests (get_messages v.current_room v.prev_batch ∷ []))
  page_loaded_unlocks client unparsed v =
      ground (arith, length-append v.requests (get_messages v.current_room v.prev_batch ∷ []))
  page_loaded_unlocks client (page end start none) v =
      ground (arith, length-append v.requests (get_messages v.current_room v.prev_batch ∷ []))
  page_loaded_unlocks client (page end start (some chunk)) v =
      ground (arith, length-append v.requests (get_messages v.current_room v.prev_batch ∷ []))

  -- The last page has no `end`, and its `start` is where it was asked for: another click then sends the same
  -- request once more, and the button stays on show.
  pub page_loaded_repeats :
      (chunk : List Raw) (v : View S)
      → v.current_room ≢ []
      → v.prev_batch ≢ []
      → let w =
          page_loaded m decimal g has_row
            (page none (some v.prev_batch) (some chunk))
            (on_load_more_clicked m decimal true v) in
        (w.load_more_shown ≡ v.load_more_shown)
        × ((on_load_more_clicked m decimal true w).requests
            ≡ v.requests
              ++ get_messages v.current_room v.prev_batch
                ∷ get_messages v.current_room v.prev_batch
                ∷ [])
  unfolding page_loaded show_page tell on_load_more_clicked ask next_batch
  page_loaded_repeats chunk v r b =
      let again = get_messages v.current_room v.prev_batch ∷ [] in
      ground (arith, append_assoc v.requests again again)

  on_load_more_clicked_keeps :
      (client : Bool) (v : View S)
      → let w = on_load_more_clicked m decimal client v in
        (w.timeline ≡ v.timeline) × (w.cache ≡ v.cache)
  unfolding on_load_more_clicked tell ask
  on_load_more_clicked_keeps client v = ground arith

  mark_read_keeps : (r : RoomData) (v : View S) → (mark_read m decimal r v).cache ≡ v.cache
  unfolding mark_read
  mark_read_keeps r v = ground arith

  -- A page that was asked for in one room and comes after another room was opened goes into the timeline of
  -- the other room, behind its clearing, and its token becomes the token of that room.
  pub page_loaded_strays :
      (client : Bool) (end start : Option Text) (chunk : List Raw) (r : RoomData) (v : View S)
      → let w =
          page_loaded m decimal g has_row
            (page end start (some chunk))
            (on_room_clicked m decimal (some r) (on_load_more_clicked m decimal client v)) in
        let p = read_page g has_row v.cache chunk in
        (w.current_room ≡ r.room_id)
        × (w.prev_batch ≡ next_batch end start)
        × (w.timeline ≡ (v.timeline ++ clear ∷ []) ++ p.calls ++ append_front p.events ∷ [])
  unfolding page_loaded show_page tell on_room_clicked
  page_loaded_strays client end start chunk r v =
      let (rows, names) = on_load_more_clicked_keeps client v in
      rw (mark_read_keeps r (on_load_more_clicked m decimal client v), rows, names)
        (refl, refl, refl)
