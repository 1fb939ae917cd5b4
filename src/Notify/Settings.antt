-- ===== src/Notify/Settings.antt =====
-- The constructor `Notify` of gatling-rest/static/src/assets/js/bootstrap-notify.js up to the test
-- for duplicates: content, options and defaults. A `content` inside the options is left out.
pub mod Merge
use dist_gatling.Shared.{
  ℕ, Bool, true, false, not, ◌&&◌, ◌||◌, String, Option, none, some, List, [], ◌∷◌, str_eq, any,
  if◌then◌else◌,
}

-- A field that is given or `undefined`; `extend` copies what is given.
abbrev pub or_default {ℓ} : {A : Type ℓ} → A → Option A → A
or_default d none = d
or_default d (some a) = a

-- the argument `content`: a text, or an object
pub data Argument : Type 0 where
  words : String → Argument
  object : Option String → Option String → Option String → Option String → Option String → Argument

-- `message` is undefined for an object without one.
pub record Content : Type 0 where
  pub message : Option String
  pub title : String
  pub icon : String
  pub url : String
  pub target : String

-- `field ? field : d`
abbrev pub truthy_or : String → Option String → String
truthy_or d none = d
truthy_or d (some s) = if str_eq s "" then d else s

unfoldable pub content_of : Argument → Content
content_of (words s) = record { message = some s; title = ""; icon = ""; url = "#"; target = "-" }
content_of (object message title icon url target) = record {
  message = message;
  title = truthy_or "" title;
  icon = truthy_or "" icon;
  url = truthy_or "#" url;
  target = truthy_or "-" target;
}

-- a number, or an object whose fields may be missing
pub data Offset : Type 0 where
  number : ℕ → Offset
  axes : Option ℕ → Option ℕ → Offset

-- The options, with what is `undefined`; `position` and `mouse_over` may be null too.
pub record Options : Type 0 where
  pub element : Option String
  pub position : Option (Option String)
  pub type : Option String
  pub allow_dismiss : Option Bool
  pub allow_duplicates : Option Bool
  pub newest_on_top : Option Bool
  pub show_progressbar : Option Bool
  pub place_from : Option String
  pub place_align : Option String
  pub offset : Option Offset
  pub spacing : Option ℕ
  pub z_index : Option ℕ
  pub delay : Option ℕ
  pub timer : Option ℕ
  pub url_target : Option String
  pub mouse_over : Option (Option String)
  pub enter : Option String
  pub exit : Option String
  pub icon_type : Option String
  pub template : Option String

pub record Defaults : Type 0 where
  pub element : String
  pub position : Option String
  pub type : String
  pub allow_dismiss : Bool
  pub allow_duplicates : Bool
  pub newest_on_top : Bool
  pub show_progressbar : Bool
  pub place_from : String
  pub place_align : String
  pub offset : Offset
  pub spacing : ℕ
  pub z_index : ℕ
  pub delay : ℕ
  pub timer : ℕ
  pub url_target : String
  pub mouse_over : Option String
  pub enter : String
  pub exit : String
  pub icon_type : String
  pub template : String

-- `var defaults`, with the template as a parameter
unfoldable pub defaults : String → Defaults
defaults template = record {
  element = "body";
  position = none;
  type = "info";
  allow_dismiss = true;
  allow_duplicates = true;
  newest_on_top = false;
  show_progressbar = false;
  place_from = "top";
  place_align = "right";
  offset = number 20;
  spacing = 10;
  z_index = 1031;
  delay = 5000;
  timer = 1000;
  url_target = "_blank";
  mouse_over = none;
  enter = "animated fadeInDown";
  exit = "animated fadeOutUp";
  icon_type = "class";
  template = template;
}

-- A missing axis of an object is taken from the axes of the defaults, if these have axes.
abbrev axis_of : Option ℕ → Option ℕ → Option ℕ
axis_of d none = d
axis_of d (some n) = some n

pub merge_offset : Offset → Option Offset → Offset
merge_offset d none = d
merge_offset d (some (number n)) = number n
merge_offset (number m) (some (axes x y)) = axes x y
merge_offset (axes u v) (some (axes x y)) = axes (axis_of u x) (axis_of v y)

-- `$.extend(true, {}, defaults, options)`, also what `notifyDefaults` stores
unfoldable pub merge : Defaults → Options → Defaults
unfolding merge_offset
merge d o = record {
  element = or_default d.element o.element;
  position = or_default d.position o.position;
  type = or_default d.type o.type;
  allow_dismiss = or_default d.allow_dismiss o.allow_dismiss;
  allow_duplicates = or_default d.allow_duplicates o.allow_duplicates;
  newest_on_top = or_default d.newest_on_top o.newest_on_top;
  show_progressbar = or_default d.show_progressbar o.show_progressbar;
  place_from = or_default d.place_from o.place_from;
  place_align = or_default d.place_align o.place_align;
  offset = merge_offset d.offset o.offset;
  spacing = or_default d.spacing o.spacing;
  z_index = or_default d.z_index o.z_index;
  delay = or_default d.delay o.delay;
  timer = or_default d.timer o.timer;
  url_target = or_default d.url_target o.url_target;
  mouse_over = or_default d.mouse_over o.mouse_over;
  enter = or_default d.enter o.enter;
  exit = or_default d.exit o.exit;
  icon_type = or_default d.icon_type o.icon_type;
  template = or_default d.template o.template;
}

pub record Settings : Type 0 where
  pub content : Content
  pub options : Defaults

-- a number stands for both axes
pub both_axes : Offset → Offset
both_axes (number n) = axes (some n) (some n)
both_axes (axes x y) = axes x y

-- The settings of a new notification.
unfoldable pub settings : Defaults → Argument → Options → Settings
unfolding content_of merge both_axes
settings d argument o =
    let c = content_of argument in
    let m = merge d o in
    record {
      content = if str_eq c.target "-" then record c { target = m.url_target } else c;
      options = record m { offset = both_axes m.offset };
    }

-- A notification on the page: its title as text and its message as HTML, both trimmed, and whether
-- it has a class.
pub record Shown : Type 0 where
  pub title : String
  pub message : String
  pub classes : List String

-- One round of the loop in `isDuplicateNotification`: the new title and message are given as the
-- browser writes them after it has parsed them, and the class as a name.
abbrev pub is_same : String → String → String → Shown → Bool
is_same title message alert s =
    str_eq s.title title && str_eq s.message message && any (str_eq alert) s.classes

-- The loop, which stops at the first duplicate.
pub duplicate_loop : String → String → String → Bool → List Shown → Bool
duplicate_loop title message alert is_dupe [] = is_dupe
duplicate_loop title message alert is_dupe (s ∷ ss) =
    let dupe = if is_same title message alert s then true else is_dupe in
    let rest = duplicate_loop title message alert dupe ss in if not dupe then rest else dupe

unfoldable pub is_duplicate : String → String → String → List Shown → Bool
unfolding duplicate_loop
is_duplicate title message alert page = duplicate_loop title message alert false page

-- Whether the constructor calls `init`.
unfoldable pub shows_new : Settings → Bool → Bool
shows_new s duplicate =
    s.options.allow_duplicates || (not s.options.allow_duplicates && not duplicate)
