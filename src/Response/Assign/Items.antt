-- ===== src/Response/Assign/Items.antt =====
-- assign of response.go into []interface{}.
use synap_sdk_go.Prelude.{◌≡◌, refl, List}
use synap_sdk_go.Value.{Value, Values, nil, arr, no_values, item, to_list}
use synap_sdk_go.Value.Text.{Runtime}
use synap_sdk_go.Errors.{ok}
use package.synap_sdk_go.Response.Shapes.{Shape}
use package.synap_sdk_go.Response.Assign.{assign_all, to_shape, assign}

module _ (rt : Runtime) where
  assign_all-any : (vs : Values) → assign_all (to_shape rt Shape.any nil) vs ≡ ok (to_list vs)
  unfolding assign_all to_shape
  assign_all-any no_values = refl
  assign_all-any (item v vs) = rw (assign_all-any vs)

  -- An array is taken item by item, each as it is.
  pub assign-items :
      (x : List Value) (vs : Values)
      → assign rt (Shape.slice Shape.any) x (arr vs) ≡ ok (to_list vs)
  unfolding assign to_shape
  assign-items x vs = assign_all-any vs
