-- ===== src/Toolkit.antt =====
-- The widget tree of system/core/lumi-toolkit: src/widget.c.
--
-- A tree owns its nodes: no widget is the child of two others, or of itself. `none` is a null
-- pointer, and calloc and strdup succeed. A float is a value of any type with the operations that
-- lumi_widget_layout uses.
pub mod Layout
mod Tests
use lumi_os.Base.{
  ℕ, ◌+◌, ◌-◌, ◌^◌, Bool, true, false, Option, none, some, List, [], ◌∷◌, ◌++◌, Text, if◌then◌else◌,
  leb,
}

pub data WidgetType : Type 0 where
  box label button image : WidgetType

pub data LayoutDir : Type 0 where
  row column : LayoutDir

-- `is_zero x` is `x == 0`; `default_h` is 40.0f and `default_w` 100.0f.
pub record Floats (F : Type 0) : Type 0 where
  pub zero_f : F
  pub is_zero : F → Bool
  pub add : F → F → F
  pub less_twice : F → F → F
  pub default_w : F
  pub default_h : F

-- on_click with its user data: the number of the callback, and of the data.
pub record Props (F : Type 0) : Type 0 where
  pub type : WidgetType
  pub text : Option Text
  pub x : F
  pub y : F
  pub w : F
  pub h : F
  pub padding : F
  pub spacing : F
  pub color : ℕ
  pub layout_dir : LayoutDir
  pub on_click : Option (ℕ × ℕ)

mutual
  pub data Widget (F : Type 0) : Type 0 where
    widget : Props F → Widgets F → Widget F

  pub data Widgets (F : Type 0) : Type 0 where
    no_more : Widgets F
    child : Widget F → Widgets F → Widgets F

abbrev pub max_children : ℕ
max_children = 64

module _ {F : Type 0} where
  pub child_count : Widgets F → ℕ
  child_count no_more = 0
  child_count (child c cs) = child_count cs + 1

  pub add_last : Widgets F → Widget F → Widgets F
  add_last no_more c = child c no_more
  add_last (child d cs) c = child d (add_last cs c)

  -- The parent as it is afterwards. A child that is not taken stays with the caller.
  pub lumi_widget_add_child : Option (Widget F) → Option (Widget F) → Option (Widget F)
  unfolding child_count add_last
  lumi_widget_add_child none c = none
  lumi_widget_add_child (some (widget p cs)) none = some (widget p cs)
  lumi_widget_add_child (some (widget p cs)) (some c) =
      some (widget p (if leb max_children (child_count cs) then cs else add_last cs c))

  update : (Props F → Props F) → Option (Widget F) → Option (Widget F)
  update f none = none
  update f (some (widget p cs)) = some (widget (f p) cs)

  pub lumi_widget_set_text : Option (Widget F) → Option Text → Option (Widget F)
  unfolding update
  lumi_widget_set_text t text = update (λ p. record p { text = text }) t

  pub lumi_widget_set_size : Option (Widget F) → F → F → Option (Widget F)
  unfolding update
  lumi_widget_set_size t width height = update (λ p. record p { w = width; h = height }) t

  pub lumi_widget_set_layout : Option (Widget F) → LayoutDir → Option (Widget F)
  unfolding update
  lumi_widget_set_layout t dir = update (λ p. record p { layout_dir = dir }) t

  pub lumi_widget_set_padding : Option (Widget F) → F → Option (Widget F)
  unfolding update
  lumi_widget_set_padding t pad = update (λ p. record p { padding = pad }) t

  pub lumi_widget_set_spacing : Option (Widget F) → F → Option (Widget F)
  unfolding update
  lumi_widget_set_spacing t spacing = update (λ p. record p { spacing = spacing }) t

  pub lumi_widget_set_color : Option (Widget F) → ℕ → Option (Widget F)
  unfolding update
  lumi_widget_set_color t rgba = update (λ p. record p { color = rgba }) t

  pub lumi_widget_on_click : Option (Widget F) → Option (ℕ × ℕ) → Option (Widget F)
  unfolding update
  lumi_widget_on_click t cb = update (λ p. record p { on_click = cb }) t

  -- free (w), in the order of the calls: the children before their parent.
  mutual
    pub lumi_widget_destroy : Widget F → List (Props F)
    lumi_widget_destroy (widget p cs) = destroy_each cs ++ (p ∷ [])

    pub destroy_each : Widgets F → List (Props F)
    destroy_each no_more = []
    destroy_each (child c cs) = lumi_widget_destroy c ++ destroy_each cs

module _ {F : Type 0} (f : Floats F) where
  pub lumi_widget_create : WidgetType → Widget F
  lumi_widget_create type =
      widget
        (record {
          type = type;
          text = none;
          x = f.zero_f;
          y = f.zero_f;
          w = f.zero_f;
          h = f.zero_f;
          padding = f.zero_f;
          spacing = f.zero_f;
          color = 2 ^ 32 - 1;
          layout_dir = row;
          on_click = none;
        })
        no_more

  -- if (w == 0) w = value
  abbrev pub or_else : F → F → F
  or_else w value = if f.is_zero w then value else w

  -- The assignments to the root, in front of the loop.
  pub place_root : Props F → F → F → Props F
  place_root r width height = record r {
    x = f.zero_f;
    y = f.zero_f;
    w = or_else r.w width;
    h = or_else r.h height;
  }

  -- The assignments to one child, in front of the recursive call, and the offset behind it.
  pub place_child : LayoutDir → Props F → F → Props F → Props F × F
  place_child column r offset c =
      let height = or_else c.h f.default_h in
      (
        record c {
          x = f.add r.x r.padding;
          y = f.add r.y offset;
          w = or_else c.w (f.less_twice r.w r.padding);
          h = height;
        },
        f.add offset (f.add height r.spacing),
      )
  place_child row r offset c =
      let width = or_else c.w f.default_w in
      (
        record c {
          x = f.add r.x offset;
          y = f.add r.y r.padding;
          w = width;
          h = or_else c.h (f.less_twice r.h r.padding);
        },
        f.add offset (f.add width r.spacing),
      )

  -- The loop, with the call of lumi_widget_layout on each child.
  pub layout_children : Props F → F → Widgets F → Widgets F
  unfolding place_root place_child
  layout_children r offset no_more = no_more
  layout_children r offset (child (widget q ks) cs) =
      let (c, next) = place_child r.layout_dir r offset q in
      let c' = place_root c c.w c.h in
      child (widget c' (layout_children c' c'.padding ks)) (layout_children r next cs)

  pub lumi_widget_layout : Widget F → F → F → Widget F
  unfolding layout_children
  lumi_widget_layout (widget p cs) width height =
      let r = place_root p width height in widget r (layout_children r r.padding cs)
