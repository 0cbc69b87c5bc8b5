-- ===== src/Package/Once.antt =====
-- The use of a public name, and its second use (`__getattr__`, __init__.py).
use stapel_realtime.Prelude.{String, Option, none, some, ◌≡◌, refl, ap, sym, ◌∙◌}
use stapel_realtime.Python.{Result, ok, raise}
use stapel_realtime.Package.{
  lazy_exports, entry, entry-with_entry, Importer, Package, remembered, loaded, exported,
  get_attribute, known_or_asked, access,
}

module _ (py : Importer) (name : String) where
  abbrev Found : Type 0
  Found = Result py.Object × Package py

  ok_inj : {v w : py.Object} → ◌≡◌ {A = Result py.Object} (ok v) (ok w) → v ≡ w
  ok_inj h = cc

  -- What a package that has the name answers.
  has :
      (p : Package py) (v : py.Object)
      → entry name p.globals ≡ some v
      → access py name p ≡ (ok v, p)
  unfolding access
  has p v e = ap (λ o. known_or_asked py name p o) e

  remembered_has :
      (r : Result py.Object) (p q : Package py) (v : py.Object)
      → remembered py name r p ≡ (ok v, q)
      → entry name q.globals ≡ some v
  remembered_has (ok value) p q v h =
      let same : value ≡ v = ok_inj (ap (λ (r : Found). r.0) h) in
      ap (λ gs. entry name gs) (ap (λ (r : Found). r.1.globals) (sym h))
      ∙ entry-with_entry name value p.globals
      ∙ ap some same
  remembered_has (raise e) p q v h = absurd cc

  loaded_has :
      (m : Result py.Object × py.State) (p q : Package py) (v : py.Object)
      → loaded py name p m ≡ (ok v, q)
      → entry name q.globals ≡ some v
  loaded_has (ok m, imported) p q v h =
      remembered_has (py.attribute m name) (record p { imported = imported }) q v h
  loaded_has (raise e, imported) p q v h = absurd cc

  exported_has :
      (o : Option String) (p q : Package py) (v : py.Object)
      → exported py name p o ≡ (ok v, q)
      → entry name q.globals ≡ some v
  exported_has none p q v h = absurd cc
  exported_has (some submodule) p q v h = loaded_has (py.import_module submodule p.imported) p q v h

  answered_has :
      (o : Option py.Object) (p q : Package py) (v : py.Object)
      → entry name p.globals ≡ o
      → known_or_asked py name p o ≡ (ok v, q)
      → entry name q.globals ≡ some v
  unfolding get_attribute
  answered_has none p q v e h = exported_has (entry name lazy_exports) p q v h
  answered_has (some w) p q v e h =
      ap (λ (r : Found). entry name r.1.globals) (sym h)
      ∙ e
      ∙ ap some (ok_inj (ap (λ (r : Found). r.0) h))

  -- A name that the package has answered is answered again with the same object, and nothing is
  -- imported for it a second time.
  access_once :
      (p q : Package py) (v : py.Object)
      → access py name p ≡ (ok v, q)
      → access py name q ≡ (ok v, q)
  unfolding access
  access_once p q v h = has q v (answered_has (entry name p.globals) p q v refl h)
