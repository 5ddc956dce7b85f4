-- ===== src/Toolkit/Tests.antt =====
-- A tree of three widgets over whole numbers.
use lumi_os.Base.{ℕ, ◌+◌, ◌-◌, ◌*◌, ◌≡◌, refl, none, some, [], ◌∷◌, ◌==◌}
use lumi_os.Toolkit.{
  Floats, Props, Widget, widget, no_more, child, LayoutDir, column, row, box, label,
  lumi_widget_layout, lumi_widget_create, lumi_widget_add_child, lumi_widget_destroy,
}
use lumi_os.Toolkit.Layout.{AtOrigin, HasSizes, lumi_widget_layout-AtOrigin}

abbrev pixels : Floats ℕ
pixels = record {
  zero_f = 0;
  is_zero = λ x. x == 0;
  add = λ x y. x + y;
  less_twice = λ x y. x - y * 2;
  default_w = 100;
  default_h = 40;
}

abbrev props : LayoutDir → ℕ → ℕ → ℕ → Props ℕ
props dir w h padding = record {
  type = box;
  text = none;
  x = 0;
  y = 0;
  w = w;
  h = h;
  padding = padding;
  spacing = 4;
  color = 255;
  layout_dir = dir;
  on_click = none;
}

-- A column with a row of one button, and a box of its own size below it.
abbrev tree : Widget ℕ
tree = widget (props column 0 0 8) (
    child (widget (props row 0 0 2) (child (widget (props row 0 0 0) no_more) no_more))
      (child (widget (props column 50 60 0) no_more) no_more))

lumi_widget_layout-AtOrigin_example : AtOrigin pixels (lumi_widget_layout pixels tree 320 200)
lumi_widget_layout-AtOrigin_example = lumi_widget_layout-AtOrigin pixels tree 320 200

laid_out :
    lumi_widget_layout pixels tree 320 200
    ≡ widget (props column 320 200 8) (
        child
          (widget (props row 304 40 2) (child (widget (props row 100 36 0) no_more) no_more))
          (child (widget (props column 50 60 0) no_more) no_more))
unfolding lumi_widget_layout
laid_out = refl

tree-HasSizes : HasSizes pixels (lumi_widget_layout pixels tree 320 200)
unfolding lumi_widget_layout
tree-HasSizes = (refl, refl, ((refl, refl, ((refl, refl, tt), tt)), ((refl, refl, tt), tt)))

made :
    lumi_widget_add_child (some tree) (some (lumi_widget_create pixels label))
    ≡ some (
        widget (props column 0 0 8) (
          child (widget (props row 0 0 2) (child (widget (props row 0 0 0) no_more) no_more)) (
            child
              (widget (props column 50 60 0) no_more)
              (child (lumi_widget_create pixels label) no_more))))
unfolding lumi_widget_add_child
made = refl

freed :
    lumi_widget_destroy tree
    ≡ props row 0 0 0 ∷ props row 0 0 2 ∷ props column 50 60 0 ∷ props column 0 0 8 ∷ []
unfolding lumi_widget_destroy
freed = refl
