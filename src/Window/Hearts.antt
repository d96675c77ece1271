-- ===== src/Window/Hearts.antt =====
-- The two ways to put a heart on a message in src/ui/main_window.cpp.
use progressive_desktop.Base.{◌≡◌, ◌≢◌, true, false, [], ◌∷◌, arith}
use progressive_desktop.Window.{
  send_reaction, World, Window, heart, toggle, is_mine, double_clicked, selected_id, quick_heart,
}

module _ (w : World) (s : Window) where
  -- With a room open and a message selected the key does what a double click on that message does.
  pub quick_heart-double_clicked :
      w.current_room ≢ []
      → selected_id w s ≢ []
      → quick_heart w s ≡ double_clicked w (selected_id w s)
  unfolding quick_heart double_clicked
  quick_heart-double_clicked r m = ground (arith, r, m)

  -- With no room open the key still asks the server for a heart, in a room without an id.
  pub quick_heart_without_room :
      w.has_client ≡ true
      → w.current_room ≡ []
      → selected_id w s ≢ []
      → is_mine w (selected_id w s) ≡ false
      → w.my_reaction_id (selected_id w s) heart ≡ []
      → (double_clicked w (selected_id w s) ≡ [])
        × (quick_heart w s ≡ send_reaction [] (selected_id w s) heart ∷ [])
  unfolding quick_heart double_clicked toggle
  quick_heart_without_room c r m i n = ground (arith, c, r, m, i, n)
