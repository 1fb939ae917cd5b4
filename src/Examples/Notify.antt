-- ===== src/Examples/Notify.antt =====
-- Inputs for the notifications, gatling-rest/static/src/assets/js/bootstrap-notify.js.
use dist_gatling.Shared.{ℕ, ◌≡◌, refl, true, false, List, [], ◌∷◌, arith}
use dist_gatling.Shared.Int.{pos}
use dist_gatling.Jquery.{class, bool}
use dist_gatling.Jquery.Simple.{simple, blank, write}
use dist_gatling.Notify.Update.{Alert, Command, type, icon, progress, other}
use dist_gatling.Notify.Format.{format}
use dist_gatling.Notify.Format.Template.{Piece, unit, hole, render, instantiate, format-instantiate}
use dist_gatling.Notify.Stack.{
  Place, Notice, Layout, top, right, is_sibling, placement, close_page, remove_id, find_id,
}
use dist_gatling.Notify.Stack.Column.{IsStacked, IsTidy, placement-IsTidy}
use dist_gatling.Notify.Stack.Gap.{remove-close_page-IsStacked}

-- "<{0}>{1}{0}" with "a" and "b"
abbrev pieces : List Piece
pieces = unit b'<' ∷ hole 0 ∷ unit b'>' ∷ hole 1 ∷ hole 0 ∷ []

abbrev words : List (List ℕ)
words = (b'a' ∷ []) ∷ (b'b' ∷ []) ∷ []

format-instantiate_example : format (render pieces) words ≡ instantiate 0 words pieces
format-instantiate_example =
    format-instantiate pieces words (omega arith) (omega arith) (omega arith)

-- An argument that looks like a later placeholder is filled in its turn.
format_twice :
    format (b'{' ∷ b'0' ∷ b'}' ∷ []) ((b'{' ∷ b'1' ∷ b'}' ∷ []) ∷ (b'x' ∷ []) ∷ []) ≡ b'x' ∷ []
unfolding format
format_twice = refl

abbrev corner : Place
corner = record { from = top; align = right }

abbrev layout : Layout
layout = record {
  place = corner;
  host = 0;
  offset_x = 20;
  offset_y = 20;
  spacing = 10;
  newest_on_top = false;
}

abbrev notice : ℕ → ℕ → Notice
notice i edge = record {
  id = i;
  place = corner;
  host = 0;
  edge = edge;
  height = 50;
  closing_attr = false;
  closing_datum = false;
}

abbrev page : List Notice
page = notice 1 20 ∷ notice 2 80 ∷ notice 3 140 ∷ []

one_page : List Notice
one_page = (placement layout 1 50 []).0

one_page-IsTidy : IsTidy 10 one_page
unfolding one_page
one_page-IsTidy = placement-IsTidy layout 1 50 [] refl (λ p. tt)

placement-IsTidy_example : IsTidy 10 (placement layout 2 50 one_page).0
placement-IsTidy_example = placement-IsTidy layout 2 50 one_page refl one_page-IsTidy

remove-close_page-IsStacked_example :
    IsStacked (is_sibling layout) 10 0 (remove_id 2 (close_page layout 2 page))
unfolding is_sibling find_id
remove-close_page-IsStacked_example =
    remove-close_page-IsStacked layout 2 page (notice 2 80) refl refl refl
      (λ _. omega arith, (λ _. omega arith, (λ _. omega arith, tt)))

-- A notification of plain elements, with an icon, a link and a bar.
abbrev alert : Alert
alert = record {
  ele = write (class "alert-info") (bool true) blank;
  parts =
      record { name = "icon"; node = write (class "fa-bell") (bool true) blank }
      ∷ record { name = "url"; node = blank }
      ∷ [];
  bars = write (class "progress-bar-info") (bool true) blank ∷ [];
  type = "info";
  content_icon = "fa-bell";
  icon_class = true;
  icon_img = false;
  delay = 5000;
  notify_delay = pos 500000;
}

abbrev commands : List Command
commands = progress 40 ∷ type "danger" ∷ icon "fa-fire" ∷ other "title" "Late" ∷ type "warning" ∷ []
