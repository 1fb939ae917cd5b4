-- ===== src/Notify/Update.antt =====
-- How a notification looks: `buildNotify`, `setIcon` and the commands of `update` in
-- gatling-rest/static/src/assets/js/bootstrap-notify.js.
pub mod Look
use Prim.Native.String.{◌++◌ as append}
use dist_gatling.Shared.{
  ℕ, ◌*◌, ◌+◌, ◌==◌, Bool, true, false, not, ◌&&◌, ◌||◌, String, List, [], ◌∷◌, map, if◌then◌else◌,
  str_eq, filter,
}
use dist_gatling.Shared.Int.{ℤ, pos, ◌-ℤ◌}
use dist_gatling.Shared.Decimal.{decimal}
use dist_gatling.Jquery.{Jquery, Value, str, css, html, add_class, remove_class, set_attr}

-- A command of `update` with its value; the value of "progress" is a whole percentage.
pub data Command : Type 0 where
  type icon url target : String → Command
  progress : ℕ → Command
  other : String → String → Command

module _ ⦃j : Jquery⦄ where
  -- An element inside the notification with its `data-notify`.
  pub record Part : Type 0 where
    pub name : String
    pub node : j.Node

  -- The element, the elements in it, the bars (`.progress-bar`) in the one named "progressbar", the
  -- settings that are read, whether the icon's element is an `img`, and the datum `notify-delay` in
  -- hundredths of a millisecond.
  pub record Alert : Type 0 where
    pub ele : j.Node
    pub parts : List Part
    pub bars : List j.Node
    pub type : String
    pub content_icon : String
    pub icon_class : Bool
    pub icon_img : Bool
    pub delay : ℕ
    pub notify_delay : ℤ

  -- `find('[data-notify="…"]')`
  unfoldable pub on_part : String → (j.Node → j.Node) → Part → Part
  on_part name f q = if str_eq q.name name then record q { node = f q.node } else q

  abbrev pub on_parts : String → (j.Node → j.Node) → Alert → Alert
  on_parts name f a = record a { parts = map (on_part name f) a.parts }

  abbrev pub set_css : String → String → j.Node → j.Node
  set_css k v = j.put (css k) (str v)

  -- one round of the loop over the commands
  unfoldable pub execute : Command → Alert → Alert
  unfolding on_part
  execute (type t) a =
      let old = a.type in
      record a {
        ele = add_class (append "alert-" t) (remove_class (append "alert-" old) a.ele);
        bars =
            map
              (λ n.
                add_class (append "progress-bar-" t) (remove_class (append "progress-bar-" old) n))
              a.bars;
        type = t;
      }
  execute (icon i) a =
      if a.icon_class
      then on_parts "icon" (λ n. add_class i (remove_class a.content_icon n)) a
      else on_parts "icon" (set_attr "src" i) a
  execute (progress v) a = record a {
    notify_delay = pos (100 * a.delay) -ℤ pos (a.delay * v);
    bars =
        map (λ n. set_css "width" (append (decimal v) "%") (set_attr "aria-valuenow" (decimal v) n))
          a.bars;
  }
  execute (url u) a = on_parts "url" (set_attr "href" u) a
  execute (target t) a = on_parts "url" (set_attr "target" t) a
  execute (other cmd v) a = on_parts cmd (j.put html (str v)) a

  pub update : List Command → Alert → Alert
  unfolding execute
  update [] a = a
  update (c ∷ cs) a = update cs (execute c a)

  -- the parts that are left without the progress bar
  unfoldable pub without_bar : List Part → List Part
  without_bar [] = []
  without_bar (q ∷ qs) =
      let rest = without_bar qs in if str_eq q.name "progressbar" then rest else q ∷ rest

  -- `buildNotify`, once the template has been filled and read: the dismiss button is hidden if it is
  -- not allowed, and without `showProgressbar` the progress bar is removed.
  unfoldable pub build_notify : Bool → Bool → String → Alert → Alert
  unfolding on_part without_bar
  build_notify allow_dismiss show_progressbar place a =
      let a1 = record a { ele = set_attr "data-notify-position" place a.ele } in
      let a2 = if not allow_dismiss then on_parts "dismiss" (set_css "display" "none") a1 else a1 in
      if (a2.delay == 0 && not show_progressbar) || not show_progressbar
      then record a2 { parts = without_bar a2.parts; bars = [] }
      else a2

  -- `setIcon`
  unfoldable pub set_icon : Alert → Alert
  unfolding on_part
  set_icon a =
      let a1 = record a { ele = add_class "alert-with-icon" a.ele } in
      if a.icon_class
      then on_parts "icon" (add_class a.content_icon) a1
      else if a.icon_img
      then on_parts "icon" (set_attr "src" a.content_icon) a1
      else on_parts "icon"
          (j.put html
            (str (append "<img src=\"" (append a.content_icon "\" alt=\"Notify Icon\" />"))))
          a1

  -- `styleDismiss`
  unfoldable pub style_dismiss : ℕ → Alert → Alert
  unfolding on_part
  style_dismiss z_index = on_parts "dismiss" (λ n. set_css "zIndex" (decimal (z_index + 2)) (
      set_css "marginTop" "-13px"
        (set_css "top" "50%" (set_css "right" "10px" (set_css "position" "absolute" n)))))
