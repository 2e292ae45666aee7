-- ===== src/Identity/Public.antt =====
-- What `public_values` of src/plane_demo/management/providers/identity.py lets out.

use radius_todolist_app.Prelude.{
  String, ◌≡◌, refl, ◌∙◌, sym, false, Option, none, some, List, [], ◌∷◌, arith, if◌then◌else◌,
}
use radius_todolist_app.Dict.{Dict, collect}
use radius_todolist_app.Text.{is_one_of}
use radius_todolist_app.Identity.Config.{DemoConfig}
use radius_todolist_app.Identity.Values.{values, entries, public_values, public_keys, select_keys}

select_items : List String → List (String × Option String) → List (String × Option String)
unfolding is_one_of
select_items keys [] = []
select_items keys ((k, v) ∷ m) =
    let rest = select_items keys m in if is_one_of k keys then (k, v) ∷ rest else rest

select_keys-collect :
    (keys : List String) (m : List (String × Option String))
    → select_keys keys (collect m) ≡ collect (select_items keys m)
unfolding select_keys collect select_items
select_keys-collect keys [] = refl
select_keys-collect keys ((k, none) ∷ m) = ground (arith, select_keys-collect keys m)
select_keys-collect keys ((k, some v) ∷ m) = ground (arith, select_keys-collect keys m)

-- The public values of a configuration are the same whatever its demo keys are: they hold no secret.
pub public_values-demo_keys :
    (c : DemoConfig) (keys : Dict String)
    → public_values c ≡ public_values (record c { demo_keys = keys })
unfolding public_values values entries select_items is_one_of
public_values-demo_keys c keys =
    select_keys-collect public_keys (entries false c)
    ∙ sym (select_keys-collect public_keys (entries false (record c { demo_keys = keys })))
