-- ===== src/Toolkit/Layout.antt =====
-- What lumi_widget_layout does to positions and sizes.
use lumi_os.Base.{◌≡◌, refl, false, arith}
use lumi_os.Toolkit.{
  Floats, Props, Widget, widget, Widgets, no_more, child, LayoutDir, row, column, place_root,
  place_child, layout_children, lumi_widget_layout,
}

module _ {F : Type 0} (f : Floats F) where
  -- Every widget of the tree lies at (0, 0).
  abbrev mutual
    pub AtOrigin : Widget F → Type 0
    AtOrigin (widget p cs) = (p.x ≡ f.zero_f) × (p.y ≡ f.zero_f) × AllAtOrigin cs

    pub AllAtOrigin : Widgets F → Type 0
    AllAtOrigin no_more = Unit
    AllAtOrigin (child c cs) = AtOrigin c × AllAtOrigin cs

  layout_children-AllAtOrigin :
      (r : Props F) (offset : F) (cs : Widgets F) → AllAtOrigin (layout_children f r offset cs)
  unfolding layout_children
  layout_children-AllAtOrigin r offset no_more = tt
  layout_children-AllAtOrigin r offset (child (widget q ks) cs) =
      let p = place_child f r.layout_dir r offset q in
      let c' = place_root f p.0 p.0.w p.0.h in
      (
        (refl, refl, layout_children-AllAtOrigin c' c'.padding ks),
        layout_children-AllAtOrigin r p.1 cs,
      )

  -- lumi_widget_layout leaves every widget of the tree at (0, 0), whatever its layout direction,
  -- padding and spacing, and whatever the floats compute.
  pub lumi_widget_layout-AtOrigin :
      (t : Widget F) (width height : F) → AtOrigin (lumi_widget_layout f t width height)
  unfolding lumi_widget_layout
  lumi_widget_layout-AtOrigin (widget p cs) width height =
      let r = place_root f p width height in
      (refl, refl, layout_children-AllAtOrigin r r.padding cs)

  -- No width or height in the tree is 0.
  abbrev mutual
    pub HasSizes : Widget F → Type 0
    HasSizes (widget p cs) = (f.is_zero p.w ≡ false) × (f.is_zero p.h ≡ false) × AllHaveSizes cs

    pub AllHaveSizes : Widgets F → Type 0
    AllHaveSizes no_more = Unit
    AllHaveSizes (child c cs) = HasSizes c × AllHaveSizes cs

  -- The root, or a child, is left alone when it has been laid out and has its sizes.
  place_root_again :
      (p : Props F) (width height : F)
      → p.x ≡ f.zero_f
      → p.y ≡ f.zero_f
      → f.is_zero p.w ≡ false
      → f.is_zero p.h ≡ false
      → place_root f p width height ≡ p
  unfolding place_root
  place_root_again p width height x y w h = ground arith

  place_child_again :
      (dir : LayoutDir) (r : Props F) (offset : F) (q : Props F)
      → let p = place_child f dir r offset q in
        let c' = place_root f p.0 p.0.w p.0.h in
        f.is_zero c'.w ≡ false
        → f.is_zero c'.h ≡ false
        → let p' = place_child f dir r offset c' in
          (p'.1 ≡ p.1) × (place_root f p'.0 p'.0.w p'.0.h ≡ c')
  unfolding place_child place_root
  place_child_again row r offset q w h = ground arith
  place_child_again column r offset q w h = ground arith

  layout_children_again :
      (r : Props F) (offset : F) (cs : Widgets F)
      → AllHaveSizes (layout_children f r offset cs)
      → layout_children f r offset (layout_children f r offset cs) ≡ layout_children f r offset cs
  unfolding layout_children
  layout_children_again r offset no_more h = refl
  layout_children_again r offset (child (widget q ks) cs) ((w, hh, below), rest) =
      let p = place_child f r.layout_dir r offset q in
      let c' = place_root f p.0 p.0.w p.0.h in
      let (next, same) = place_child_again r.layout_dir r offset q w hh in
      let inner = layout_children_again c' c'.padding ks below in
      let after = layout_children_again r p.1 cs rest in cc (next, same, inner, after)

  -- Where lumi_widget_layout has left no width or height 0, laying the tree out again changes
  -- nothing, whatever size it is given then.
  lumi_widget_layout_again :
      (t : Widget F) (width height width' height' : F)
      → HasSizes (lumi_widget_layout f t width height)
      → lumi_widget_layout f (lumi_widget_layout f t width height) width' height'
        ≡ lumi_widget_layout f t width height
  unfolding lumi_widget_layout
  lumi_widget_layout_again (widget p cs) width height width' height' (w, h, below) =
      let r = place_root f p width height in
      let same = place_root_again r width' height' refl refl w h in
      let inner = layout_children_again r r.padding cs below in cc (same, inner)
