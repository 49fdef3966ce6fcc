-- ===== src/Pager/Tests.antt =====
-- The pager's theorems at concrete inputs.
use netfleet.Common.{ℕ, ◌<◌, ◌%◌, ◌≡◌, refl, ◌↔◌, Option, some, List, ◌∷◌, true, ◌&&◌, ◌||◌, arith}
use netfleet.Pager.{Props, Button, page_window, current, go, pages, press, to, at_first, at_last}
use netfleet.Pager.Window.{Walk, shows, is_near, page_window-Walk, shows-page_window}
use netfleet.Pager.Moves.{target, current-press, at_last-to}

-- The third of five pages, the last of which has four rows.
abbrev third : Props
third = record { offset = 20; limit = 10; total = 44 }

page_window-Walk_example :
    (out : List (Option ℕ)) × (page_window 5 10 1 ≡ some 1 ∷ out) × Walk 1 out 10
page_window-Walk_example = page_window-Walk 5 10 1 (omega arith)

shows-page_window_example :
    shows 3 (page_window 4 10 1) ≡ (is_near 4 10 1 3 || is_near 4 10 1 2 && is_near 4 10 1 4)
shows-page_window_example = shows-page_window 4 10 1 (omega arith) 3 (omega arith)

current-press_example :
    (30 % third.limit ≡ 0)
    × (30 < third.total)
    × (current (record third { offset = 30 }) ≡ target third Button.next)
unfolding press at_first at_last current pages go
current-press_example = current-press third Button.next 30 (omega arith) (omega arith) refl

at_last-to_example : (at_last third ≡ true) ↔ (to third ≡ third.total)
at_last-to_example = at_last-to third (omega arith) (omega arith) (omega arith)
