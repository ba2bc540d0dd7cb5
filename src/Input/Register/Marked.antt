-- ===== src/Input/Register/Marked.antt =====
-- platform/linux/input.c: the marks on the device that was listed last.
use gtscreen.Prelude.{ℕ, Bool, true, false, Option, none, some, List, [], ◌∷◌, All}
use gtscreen.Os.{Os}
use gtscreen.Fdpoll.{Node}
use gtscreen.Input.Driver.{Pvt}
use gtscreen.Input.Discover.{Class, keyboard, mouse, touch}
use gtscreen.Input.Register.{Reader, Entry, Registry, on_head, mark}
use gtscreen.Input.Register.{tracking, map_head}
use gtscreen.Input.Register.Attached.{IsRegistry, Driven, Attached, Numbered}

tracking-Driven :
    {F : Type 0} (trackpad : Bool) (p : Option (Pvt F)) → Driven p → Driven (tracking trackpad p)
unfolding tracking
tracking-Driven trackpad none h = tt
tracking-Driven false (some p) h = h
tracking-Driven true (some p) h = record {
  contacts = record {
    ids = h.contacts.ids;
    mags = h.contacts.mags;
    x_axis = h.contacts.x_axis;
    y_axis = h.contacts.y_axis;
  };
  slot = h.slot;
}

mark-Driven :
    {F : Type 0} (hk trackpad : Bool) (cls : Class) (d : Entry F)
    → Driven d.driver
    → Driven (mark hk trackpad cls d).driver
unfolding mark
mark-Driven hk trackpad keyboard d h = h
mark-Driven hk trackpad mouse d h = h
mark-Driven hk trackpad touch d h = tracking-Driven trackpad d.driver h

module _ {F C : Type 0} (reader : Reader → ℕ → C) (os : Os) (old : List (Node C)) where
  Attached-mark :
      (hk trackpad : Bool) (cls : Class) (ds : List (Entry F)) (ns : List (Node C))
      → Attached reader ds ns old
      → Attached reader (map_head (mark hk trackpad cls) ds) ns old
  unfolding mark
  Attached-mark hk trackpad cls [] ns h = h
  Attached-mark hk trackpad cls (d ∷ ds) [] h = h
  Attached-mark hk trackpad keyboard (d ∷ ds) (n ∷ ns) h = h
  Attached-mark hk trackpad mouse (d ∷ ds) (n ∷ ns) h = h
  Attached-mark hk trackpad touch (d ∷ ds) (n ∷ ns) h = h

  Numbered-mark :
      (hk trackpad : Bool) (cls : Class) (ds : List (Entry F)) (n : ℕ)
      → Numbered ds n
      → Numbered (map_head (mark hk trackpad cls) ds) n
  unfolding mark
  Numbered-mark hk trackpad cls [] n h = h
  Numbered-mark hk trackpad keyboard (d ∷ ds) n h = h
  Numbered-mark hk trackpad mouse (d ∷ ds) n h = h
  Numbered-mark hk trackpad touch (d ∷ ds) n h = h

  All-mark :
      (hk trackpad : Bool) (cls : Class) (ds : List (Entry F))
      → All (λ (d : Entry F). Driven d.driver) ds
      → All (λ (d : Entry F). Driven d.driver) (map_head (mark hk trackpad cls) ds)
  All-mark hk trackpad cls [] h = h
  All-mark hk trackpad cls (d ∷ ds) h = (mark-Driven hk trackpad cls d h.0, h.1)

  pub marked-IsRegistry :
      (hk trackpad : Bool) (cls : Class) (r : Registry F C)
      → IsRegistry reader old r
      → IsRegistry reader old (on_head (mark hk trackpad cls) r)
  marked-IsRegistry hk trackpad cls r i = record {
    attached = Attached-mark hk trackpad cls r.devices r.handler.list i.attached;
    numbered = Numbered-mark hk trackpad cls r.devices r.new_id i.numbered;
    id_bound = i.id_bound;
    drivers = All-mark hk trackpad cls r.devices i.drivers;
  }
